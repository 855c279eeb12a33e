-- ===== src/Studio/Tokens.antt =====
-- TokensAPI of lattica_studio_src/lattica_studio/resources/tokens.py. A random name is an argument, and so
-- is the write of a token into the store.
use lattica_studio.Prelude.{
  ◌≡◌, refl, sym, ap, ◌∙◌, String, List, [], ◌∷◌, ◌++◌, Option, none, some, Bool, true, false,
}
use lattica_studio.Result.{Result, ok, err, >>=-eq-ok, or_raise, invalid_resource_response_error}
use lattica_studio.Credentials.{make_identity, QueryToken, token_to_dict, token_from_dict}
use lattica_studio.Credentials.RoundTrip.{
  made_same, made_name, token_made_same, token_from_dict-to_dict,
}
use lattica_studio.Studio.{Json, text, get_field, Backend, Act, bind, ◌>>=◌, ◌>>◌, pure, lift}
use lattica_studio.Studio.Parse.{object_of}
use lattica_studio.Studio.TokenReplies.{
  TokenInfo, text_of, message_of, with_warning, created_token, token_info_of, tokens_of,
}

abbrev pub name_or : String → Option String → String
name_or random none = random
name_or random (some name) = name

-- A parameter that is left out where it is None.
abbrev pub text_param : String → Option String → List (String × Json)
text_param key none = []
text_param key (some value) = (key, text value) ∷ []

module _ {B : Type 0} (backend : Backend B) (save : QueryToken → Act B (Unit {0})) where
  abbrev pub save_if : Bool → QueryToken → Act B QueryToken
  save_if true token = do save token; pure token
  save_if false token = pure token

  -- TokensAPI.create
  unfoldable pub create_token : String → String → Option String → Bool → Act B QueryToken
  unfolding created_token
  create_token random model_id name is_saved = do
    response ←
        backend.call "api/token/generate_token"
          (("modelId", text model_id) ∷ ("tokenName", text (name_or random name)) ∷ [])
    token ← lift (created_token (name_or random name) response)
    save_if is_saved token

  unfoldable pub delete_token : String → Act B Json
  delete_token token_id = do
    response ← backend.call "api/token/delete_token" (("tokenId", text token_id) ∷ [])
    lift (message_of response)

  unfoldable pub assign : String → String → Act B (Json × Option Json)
  assign token_id model_id = do
    response ←
        backend.call "api/token/assign_token_to_model"
          (("tokenId", text token_id) ∷ ("modelIdToAssign", text model_id) ∷ [])
    lift (with_warning response)

  unfoldable pub unassign : String → String → Act B (Json × Option Json)
  unassign token_id model_id = do
    response ←
        backend.call "api/token/unassign_token_from_model"
          (("tokenId", text token_id) ∷ ("modelId", text model_id) ∷ [])
    lift (with_warning response)

  unfoldable pub update_token : String → Option String → Option String → Option String → Act B Json
  update_token token_id name note status = do
    response ← backend.call "api/token/update_token_info" (
        ("tokenId", text token_id)
        ∷ (text_param "tokenName" name
            ++ text_param "tokenNote" note
            ++ text_param "status" status))
    lift (message_of response)

  -- TokensAPI.get
  unfoldable pub token_info : QueryToken → Act B TokenInfo
  unfolding token_info_of
  token_info token = do
    response ← backend.call "api/token/get_token_info" (("token", text token.value) ∷ [])
    lift (token_info_of response)

  -- TokensAPI.list
  unfoldable pub list_tokens :
      Option String → Option String → Option String → Act B (List TokenInfo)
  unfolding tokens_of
  list_tokens status model_id issue_date = do
    response ← backend.call "api/token/list_tokens" (
        text_param "status" status
        ++ text_param "modelId" model_id
        ++ text_param "issueDate" issue_date)
    lift (tokens_of response)

created_token-made :
    (name : String) (response : Json) (token : QueryToken)
    → created_token name response ≡ ok token
    → (token.identity.name ≡ some name) × (token_from_dict (token_to_dict token) ≡ ok token)
unfolding created_token
created_token-made name response token h =
    let (entries, e1, h1) =
      >>=-eq-ok (or_raise (object_of response) invalid_resource_response_error) _ h in
    let (value, e2, h2) = >>=-eq-ok (text_of (get_field entries "token")) _ h1 in
    let (token_id, e3, h3) = >>=-eq-ok (text_of (get_field entries "tokenId")) _ h2 in
    let (identity, e4, h4) = >>=-eq-ok (make_identity token_id (some name)) _ h3 in
    let (same, again) = token_made_same value identity token h4 in
    let made = made_same token_id (some name) identity e4 in
    (
      ap (λ i. i.name) same ∙ made_name token_id (some name) identity e4,
      token_from_dict-to_dict token (rw (sym same) at made) again,
    )

-- The first part of a chain that returns, and the rest.
bind-ok :
    {B A C : Type 0} (r : B × Result A) (f : A → Act B C) (b' : B) (c : C)
    → bind r f ≡ (b', ok c)
    → (a : A) × (b : B) × (r ≡ (b, ok a)) × (f a b ≡ (b', ok c))
bind-ok (b, ok a) f b' c h = (a, b, refl, h)
bind-ok (b, err e) f b' c h = cc

save_if-ok :
    {B : Type 0} (backend : Backend B) (save : QueryToken → Act B (Unit {0})) (is_saved : Bool)
    (made token : QueryToken) (b b' : B)
    → save_if backend save is_saved made b ≡ (b', ok token)
    → made ≡ token
save_if-ok backend save true made token b b' h =
    let (u, b1, e, k) = bind-ok (save made b) (λ _. pure made) b' token h in cc
save_if-ok backend save false made token b b' h = cc

-- The reply of the backend, and what `create` makes of it.
create-created :
    {B : Type 0} (backend : Backend B) (save : QueryToken → Act B (Unit {0}))
    (random model_id : String) (name : Option String) (is_saved : Bool) (b b' : B)
    (token : QueryToken)
    → create_token backend save random model_id name is_saved b ≡ (b', ok token)
    → (response : Json) × (created_token (name_or random name) response ≡ ok token)
unfolding create_token
create-created {B = B} backend save random model_id name is_saved b b' token h =
    let reply =
      backend.call "api/token/generate_token"
        (("modelId", text model_id) ∷ ("tokenName", text (name_or random name)) ∷ []) b in
    let keep : QueryToken → Act B QueryToken = save_if backend save is_saved in
    let (response, b1, e, k) =
      bind-ok reply (λ response. lift (created_token (name_or random name) response) >>= keep) b'
        token h in
    let (made, b2, e2, k2) =
      bind-ok (b1, created_token (name_or random name) response) keep b' token k in
    let same = save_if-ok backend save is_saved made token b2 b' k2 in
    (response, ap (λ r. r.1) e2 ∙ ap ok same)

-- A token that `create` returns has the name that was asked for, or the random one where none was, and
-- it is the token that a store of it gives back.
pub create_token_lem :
    {B : Type 0} (backend : Backend B) (save : QueryToken → Act B (Unit {0}))
    (random model_id : String) (name : Option String) (is_saved : Bool) (b b' : B)
    (token : QueryToken)
    → create_token backend save random model_id name is_saved b ≡ (b', ok token)
    → (token.identity.name ≡ some (name_or random name))
      × (token_from_dict (token_to_dict token) ≡ ok token)
create_token_lem backend save random model_id name is_saved b b' token h =
    let (response, e) = create-created backend save random model_id name is_saved b b' token h in
    created_token-made (name_or random name) response token e
