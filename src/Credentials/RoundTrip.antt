-- ===== src/Credentials/RoundTrip.antt =====
-- What `to_dict` has written of an identity or of a query token, `from_dict` reads back.
use lattica_studio.Prelude.{sym, ◌≡◌, refl, String, Option, none, some, inl, inr, Bool-cases}
use lattica_studio.Result.{ok, >>=-eq-ok}
use lattica_studio.Studio.{
  Json, null, text, number, boolean, array, object, no_fields, field, get_field,
}
use lattica_studio.Credentials.{
  TokenIdentity, make_identity, identity_to_dict, identity_from_dict, json_of, id_text, name_text,
  codes, is_blank, is_blank_name, QueryToken, make_token, token_to_dict, token_from_dict,
}

name_read :
    (name : Option String)
    → name_text (get_field (field "name" (json_of name) no_fields) "name") ≡ ok name
unfolding get_field
name_read none = refl
name_read (some name) = refl

pub identity_round :
    (token : TokenIdentity)
    → make_identity token.id token.name ≡ ok token
    → identity_from_dict (identity_to_dict token) ≡ ok token
unfolding identity_from_dict identity_to_dict get_field
identity_round token made = let e = name_read token.name in rw (e, made)

-- A query token that its constructors have made is what `from_dict` makes of its `to_dict`.
pub token_from_dict-to_dict :
    (token : QueryToken)
    → make_identity token.identity.id token.identity.name ≡ ok token.identity
    → make_token token.value token.identity ≡ ok token
    → token_from_dict (token_to_dict token) ≡ ok token
unfolding token_from_dict token_to_dict get_field identity_to_dict
token_from_dict-to_dict token made token_made =
    let e = identity_round token.identity made in rw (e, token_made)

pub made_same :
    (id : String) (name : Option String) (token : TokenIdentity)
    → make_identity id name ≡ ok token
    → make_identity token.id token.name ≡ ok token
unfolding make_identity
made_same id name token h = elim (Bool-cases (is_blank (codes id))) [
  | inl blank ↦ cc (rw blank at h)
  | inr good ↦ elim (Bool-cases (is_blank_name name)) [
    | inl blank ↦ cc (rw (good, blank) at h)
    | inr fine ↦
        let h2 = rw (good, fine) at h in
        let same_id : id ≡ token.id = cc h2 in
        let same_name : name ≡ token.name = cc h2 in rw (rw same_id at good, rw same_name at fine)
  ]
]

pub made_name :
    (id : String) (name : Option String) (token : TokenIdentity)
    → make_identity id name ≡ ok token
    → token.name ≡ name
unfolding make_identity
made_name id name token h = elim (Bool-cases (is_blank (codes id))) [
  | inl blank ↦ cc (rw blank at h)
  | inr good ↦ elim (Bool-cases (is_blank_name name)) [
    | inl blank ↦ cc (rw (good, blank) at h)
    | inr fine ↦ let h2 = rw (good, fine) at h in let same : name ≡ token.name = cc h2 in sym same
  ]
]

-- Whatever `from_dict` returns, the constructor has made.
pub identity_from_dict-made :
    (j : Json) (token : TokenIdentity)
    → identity_from_dict j ≡ ok token
    → make_identity token.id token.name ≡ ok token
unfolding identity_from_dict
identity_from_dict-made (object entries) token h =
    let (id, e, h1) = >>=-eq-ok (id_text (get_field entries "id")) _ h in
    let (name, e2, h2) = >>=-eq-ok (name_text (get_field entries "name")) _ h1 in
    made_same id name token h2
identity_from_dict-made null token h = cc
identity_from_dict-made (text t) token h = cc
identity_from_dict-made (number n) token h = cc
identity_from_dict-made (boolean b) token h = cc
identity_from_dict-made (array elements) token h = cc

-- The same of a token, and what its constructor keeps.
pub token_made_same :
    (value : String) (identity : TokenIdentity) (token : QueryToken)
    → make_token value identity ≡ ok token
    → (token.identity ≡ identity) × (make_token token.value token.identity ≡ ok token)
unfolding make_token
token_made_same value identity token h = elim (Bool-cases (is_blank (codes value))) [
  | inl blank ↦ cc (rw blank at h)
  | inr good ↦
      let h2 = rw good at h in
      let same_value : value ≡ token.value = cc h2 in
      let same_identity : identity ≡ token.identity = cc h2 in
      (sym same_identity, rw (rw same_value at good) refl)
]
