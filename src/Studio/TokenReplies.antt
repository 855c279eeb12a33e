-- ===== src/Studio/TokenReplies.antt =====
-- How TokensAPI of lattica_studio_src/lattica_studio/resources/tokens.py reads the backend's replies, and
-- TokenInfo of types.py.
use lattica_studio.Prelude.{String, str_eq, List, [], ◌∷◌, Option, none, some, if◌then◌else◌}
use lattica_studio.Result.{
  Result, ok, err, invalid_resource_response_error, key_error, type_error, or_raise, ◌>>=◌,
}
use lattica_studio.Credentials.{make_identity, QueryToken, make_token}
use lattica_studio.Studio.{
  Json, null, text, number, boolean, array, object, Items, no_items, item, Fields, no_fields, field,
  get_field, value_of, is_true,
}
use lattica_studio.Studio.Parse.{object_of, get_array}

pub record TokenInfo : Type 0 where
  pub id : Option Json
  pub name : Option Json
  pub status : Option Json
  pub expiration : Option Json
  pub model_id : Option Json
  pub model_name : Option Json
  pub model_status : Option Json
  pub worker_status : Option Json
  pub evaluation_key_created_at : Option Json

-- TokenInfo.from_api
unfoldable pub token_info_from_api : Fields → TokenInfo
unfolding value_of
token_info_from_api entries = record {
  id = value_of entries ("tokenId" ∷ "id" ∷ []);
  name = value_of entries ("tokenName" ∷ "name" ∷ []);
  status = value_of entries ("tokenStatus" ∷ "status" ∷ []);
  expiration = value_of entries ("tokenExpiration" ∷ "expirationDate" ∷ "expiration" ∷ []);
  model_id = value_of entries ("modelId" ∷ "model_id" ∷ []);
  model_name = value_of entries ("modelName" ∷ "model_name" ∷ []);
  model_status = value_of entries ("modelStatus" ∷ "model_status" ∷ []);
  worker_status = value_of entries ("workerStatus" ∷ "worker_status" ∷ []);
  evaluation_key_created_at =
      value_of entries
        ("evalKeyCreatedAt" ∷ "evaluationKeyCreatedAt" ∷ "evaluation_key_created_at" ∷ []);
}

-- A text that is not empty, or the error of a malformed reply.
abbrev pub text_of : Option Json → Result String
text_of (some (text t)) = if str_eq t "" then err invalid_resource_response_error else ok t
text_of none = err invalid_resource_response_error
text_of (some null) = err invalid_resource_response_error
text_of (some (number n)) = err invalid_resource_response_error
text_of (some (boolean b)) = err invalid_resource_response_error
text_of (some (array elements)) = err invalid_resource_response_error
text_of (some (object entries)) = err invalid_resource_response_error

-- `data[name]` of an object, where null is a value.
unfoldable pub field_at : Fields → String → Result Json
field_at no_fields name = err key_error
field_at (field n value rest) name =
    let later = field_at rest name in if str_eq n name then ok value else later

-- `response["message"]`, whatever the response is.
abbrev pub message_of : Json → Result Json
message_of response = elim (object_of response) [
  | none ↦ err type_error
  | some entries ↦ field_at entries "message"
]

-- The pair of "message" and "warning" of `assign` and `unassign`.
abbrev pub with_warning : Json → Result (Json × Option Json)
with_warning response = elim (object_of response) [
  | none ↦ err type_error
  | some entries ↦ elim (field_at entries "message") [
    | ok message ↦ ok (message, get_field entries "warning")
    | err e ↦ err e
  ]
]

-- `response.get(name) or {}`, none where it is true and no object.
abbrev pub or_no_fields : Option Json → Option Fields
or_no_fields none = some no_fields
or_no_fields (some value) = if is_true (some value) then object_of value else some no_fields

-- The reply of `create`: the new token, of the given name.
unfoldable pub created_token : String → Json → Result QueryToken
unfolding get_field make_identity make_token
created_token name response = do
  entries ← or_raise (object_of response) invalid_resource_response_error
  value ← text_of (get_field entries "token")
  token_id ← text_of (get_field entries "tokenId")
  identity ← make_identity token_id (some name)
  make_token value identity

-- The reply of `get`, part by part.
unfoldable pub token_info_of : Json → Result TokenInfo
unfolding get_field
token_info_of response = do
  entries ← or_raise (object_of response) invalid_resource_response_error
  token_data ← or_raise (or_no_fields (get_field entries "token")) invalid_resource_response_error
  model_data ← or_raise (or_no_fields (get_field entries "model")) invalid_resource_response_error
  worker_data ← or_raise (or_no_fields (get_field entries "worker")) invalid_resource_response_error
  key_data ←
      or_raise (or_no_fields (get_field entries "evaluationKey")) invalid_resource_response_error
  ok (record {
    id = get_field token_data "tokenId";
    name = get_field token_data "tokenName";
    status = get_field token_data "status";
    expiration = get_field token_data "expirationDate";
    model_id = get_field model_data "modelId";
    model_name = get_field model_data "modelName";
    model_status = get_field model_data "status";
    worker_status = get_field worker_data "status";
    evaluation_key_created_at = get_field key_data "createdAt";
  })

-- `[TokenInfo.from_api(token) for token in tokens]`, if every one is an object
unfoldable pub each_token : Items → Result (List TokenInfo)
unfolding token_info_from_api
each_token no_items = ok []
each_token (item x xs) = do
  entries ← or_raise (object_of x) invalid_resource_response_error
  tokens ← each_token xs
  ok (token_info_from_api entries ∷ tokens)

-- The reply of `list`.
unfoldable pub tokens_of : Json → Result (List TokenInfo)
unfolding get_array each_token
tokens_of response = do
  entries ← or_raise (object_of response) invalid_resource_response_error
  tokens ← or_raise (get_array entries "tokens") invalid_resource_response_error
  each_token tokens
