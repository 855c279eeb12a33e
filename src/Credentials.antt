-- ===== src/Credentials.antt =====
-- lattica_query_src/lattica_query/client/credentials.py (the identity of a token, and query tokens) and
-- client/artifacts.py (query keys).
pub mod RoundTrip
use lattica_studio.Prelude.{
  ℕ, String, str_eq, ◌≡◌, List, [], ◌∷◌, Option, none, some, Bool, true, false, ◌&&◌, ◌||◌, leb,
  ◌==◌, if◌then◌else◌,
}
use Prim.Native.String
use Prim.Native.Char.{code}
use lattica_studio.Result.{
  Result, ok, err, value_error, key_error, type_error, raise_if, or_raise, ◌>>=◌, ◌>>◌,
}
use lattica_studio.Studio.{
  Json, null, text, number, boolean, array, object, Fields, no_fields, field, get_field,
}

abbrev pub codes : String → List ℕ
codes String.[] = []
codes (String.◌∷◌ c s) = code c ∷ codes s

-- `str.isspace` of a character.
unfoldable pub is_space : ℕ → Bool
is_space c =
    (leb 9 c && leb c 13)
    || (leb 28 c && leb c 32)
    || c == 133
    || c == 160
    || c == 5760
    || (leb 8192 c && leb c 8202)
    || c == 8232
    || c == 8233
    || c == 8239
    || c == 8287
    || c == 12288

-- `not value.strip()`
unfoldable pub is_blank : List ℕ → Bool
is_blank [] = true
is_blank (c ∷ cs) = is_space c && is_blank cs

pub record TokenIdentity : Type 0 where
  pub id : String
  pub name : Option String

abbrev pub is_blank_name : Option String → Bool
is_blank_name none = false
is_blank_name (some name) = is_blank (codes name)

-- The constructor of TokenIdentity, on texts.
unfoldable pub make_identity : String → Option String → Result TokenIdentity
make_identity id name = do
  raise_if (is_blank (codes id)) value_error
  raise_if (is_blank_name name) value_error
  ok (record { id = id; name = name })

abbrev pub json_of : Option String → Json
json_of none = null
json_of (some s) = text s

unfoldable pub identity_to_dict : TokenIdentity → Json
identity_to_dict identity =
    object (field "id" (text identity.id) (field "name" (json_of identity.name) no_fields))

-- `data["id"]`, `data.get("name")` and the checks that they are texts.
abbrev pub id_text : Option Json → Result String
id_text (some (text t)) = ok t
id_text none = err value_error
id_text (some null) = err value_error
id_text (some (number n)) = err value_error
id_text (some (boolean b)) = err value_error
id_text (some (array elements)) = err value_error
id_text (some (object entries)) = err value_error

abbrev pub name_text : Option Json → Result (Option String)
name_text (some (text t)) = ok (some t)
name_text none = ok none
name_text (some null) = ok none
name_text (some (number n)) = err value_error
name_text (some (boolean b)) = err value_error
name_text (some (array elements)) = err value_error
name_text (some (object entries)) = err value_error

abbrev identity_of_fields : Fields → Result TokenIdentity
identity_of_fields entries = do
  id ← id_text (get_field entries "id")
  name ← name_text (get_field entries "name")
  make_identity id name

-- TokenIdentity.from_dict
unfoldable pub identity_from_dict : Json → Result TokenIdentity
unfolding make_identity get_field
identity_from_dict (object entries) = identity_of_fields entries
identity_from_dict null = err value_error
identity_from_dict (text t) = err value_error
identity_from_dict (number n) = err value_error
identity_from_dict (boolean b) = err value_error
identity_from_dict (array elements) = err value_error

-- The constructor of QueryToken, with an identity that is given.
pub record QueryToken : Type 0 where
  pub value : String
  pub identity : TokenIdentity

unfoldable pub make_token : String → TokenIdentity → Result QueryToken
make_token value identity = do
  raise_if (is_blank (codes value)) value_error
  ok (record { value = value; identity = identity })

unfoldable pub token_to_dict : QueryToken → Json
token_to_dict token = object (
    field "value" (text token.value) (field "identity" (identity_to_dict token.identity) no_fields))

abbrev token_of_fields : Fields → Result QueryToken
token_of_fields entries = do
  value ← id_text (get_field entries "value")
  data_of ← or_raise (get_field entries "identity") value_error
  identity ← identity_from_dict data_of
  make_token value identity

-- QueryToken.from_dict
unfoldable pub token_from_dict : Json → Result QueryToken
unfolding identity_from_dict make_token get_field
token_from_dict (object entries) = token_of_fields entries
token_from_dict null = err value_error
token_from_dict (text t) = err value_error
token_from_dict (number n) = err value_error
token_from_dict (boolean b) = err value_error
token_from_dict (array elements) = err value_error

-- QueryKey of client/artifacts.py: three texts of bytes, none of which may be empty.
abbrev pub Bytes : Type 0
Bytes = List ℕ

abbrev pub is_empty : Bytes → Bool
is_empty [] = true
is_empty (b ∷ bs) = false

pub record QueryKey : Type 0 where
  pub context : Bytes
  pub secret_key : Bytes
  pub client_model : Bytes

unfoldable pub make_key : Bytes → Bytes → Bytes → Result QueryKey
make_key context secret_key client_model = do
  raise_if (is_empty context) value_error
  raise_if (is_empty secret_key) value_error
  raise_if (is_empty client_model) value_error
  ok (record { context = context; secret_key = secret_key; client_model = client_model })
