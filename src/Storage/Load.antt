-- ===== src/Storage/Load.antt =====
-- Reading a key bundle: the record of a stored key and `load_key_bundle` of
-- lattica_query_src/lattica_query/storage/key_store.py.
use mathlib.Core.List.{reverse}
use lattica_studio.Prelude.{
  ℕ, String, [], ◌∷◌, Option, none, some, Bool, true, false, not, ◌&&◌, ◌||◌, length, leb, ◌==◌,
  if◌then◌else◌,
}
use lattica_studio.Prelude.Int.{pos}
use lattica_studio.Prelude.Dict.{string_eq, list_eq, get}
use lattica_studio.Result.{
  Result, ok, err, file_not_found_error, key_storage_error, raise_if, or_raise, ◌>>=◌, ◌>>◌,
}
use lattica_studio.Studio.{
  Json, null, text, number, boolean, array, object, Fields, get_field, equals,
}
use lattica_studio.Credentials.{
  TokenIdentity, identity_from_dict, Bytes, is_space, QueryKey, make_key,
}
use lattica_studio.Storage.{Content, raw, document, Folder, Name, KeyFolder}

-- `evaluation_key_path` is the file "evaluation-key.bin" of the revision.
pub record StoredKey : Type 0 where
  pub token : TokenIdentity
  pub key : QueryKey
  pub revision : Name
  pub evaluation_key_uploaded : Bool

unfoldable pub uploaded : StoredKey → StoredKey
uploaded stored = record stored { evaluation_key_uploaded = true }

unfoldable pub lstrip : Name → Name
lstrip [] = []
lstrip (c ∷ cs) = if is_space c then lstrip cs else c ∷ cs

abbrev pub strip : Name → Name
strip cs = reverse (lstrip (reverse (lstrip cs)))

abbrev pub is_hex : ℕ → Bool
is_hex c = (leb b'0' c && leb c b'9') || (leb b'a' c && leb c b'f')

abbrev pub all_hex : Name → Bool
all_hex [] = true
all_hex (c ∷ cs) = is_hex c && all_hex cs

-- `_resolve_current_bundle`: the name of the revision, and its directory.
unfoldable pub resolve_current_bundle : KeyFolder → Result (Name × Folder)
unfolding lstrip
resolve_current_bundle w = do
  written ← or_raise w.current file_not_found_error
  let revision = strip written
  raise_if (not (length revision == 32) || not (all_hex revision)) key_storage_error
  files ← or_raise (get revision w.revisions) key_storage_error
  ok (revision, files)

abbrev object_entries : Option Content → Result Fields
object_entries (some (document (object entries))) = ok entries
object_entries none = err key_storage_error
object_entries (some (raw bs)) = err key_storage_error
object_entries (some (document null)) = err key_storage_error
object_entries (some (document (text t))) = err key_storage_error
object_entries (some (document (number n))) = err key_storage_error
object_entries (some (document (boolean b))) = err key_storage_error
object_entries (some (document (array elements))) = err key_storage_error

abbrev is_version : Option Json → Bool
is_version none = false
is_version (some value) = equals value (pos 4)

-- `_load_metadata`
unfoldable pub load_metadata : Folder → Result Fields
unfolding get_field
load_metadata files = do
  entries ← object_entries (get "metadata.json" files)
  raise_if (not (is_version (get_field entries "version"))) key_storage_error
  ok entries

abbrev pub as_storage_error {ℓ} : {A : Type ℓ} → Result A → Result A
as_storage_error (ok a) = ok a
as_storage_error (err e) = err key_storage_error

abbrev pub bool_of : Option Json → Result Bool
bool_of (some (boolean b)) = ok b
bool_of none = err key_storage_error
bool_of (some null) = err key_storage_error
bool_of (some (text t)) = err key_storage_error
bool_of (some (number n)) = err key_storage_error
bool_of (some (array elements)) = err key_storage_error
bool_of (some (object entries)) = err key_storage_error

-- `_validate_artifact` and `_read_artifact`. A JSON document is no artifact; none is ever written there.
abbrev pub bytes_of : Option Content → Result Bytes
bytes_of (some (raw (b ∷ bs))) = ok (b ∷ bs)
bytes_of none = err key_storage_error
bytes_of (some (raw [])) = err key_storage_error
bytes_of (some (document j)) = err key_storage_error

unfoldable pub read_artifact : Folder → String → Result Bytes
read_artifact files name = bytes_of (get name files)

-- load_key_bundle, from the token on.
unfoldable pub load_with : Name → Folder → Bool → Result TokenIdentity → Result StoredKey
unfolding read_artifact
load_with revision files is_uploaded made = do
  token ← made
  _ ← read_artifact files "evaluation-key.bin"
  context ← read_artifact files "context.bin"
  secret_key ← read_artifact files "secret-key.bin"
  client_model ← read_artifact files "client-model.bin"
  key ← make_key context secret_key client_model
  ok (record {
    token = token;
    key = key;
    revision = revision;
    evaluation_key_uploaded = is_uploaded;
  })

-- load_key_bundle, from the directory of the current revision on. The order in which the token and the
-- flag are read shows only in messages.
unfoldable pub load_folder : Name → Folder → Result StoredKey
unfolding load_metadata load_with get_field
load_folder revision files = do
  metadata ← load_metadata files
  identity ← or_raise (get_field metadata "token") key_storage_error
  is_uploaded ← bool_of (get_field metadata "evaluation_key_uploaded")
  load_with revision files is_uploaded (as_storage_error (identity_from_dict identity))

-- `load_key_bundle`
unfoldable pub load_key_bundle : KeyFolder → Result StoredKey
unfolding resolve_current_bundle load_folder
load_key_bundle w = do (revision, files) ← resolve_current_bundle w; load_folder revision files

-- `key_bundle_exists`
unfoldable pub key_bundle_exists : KeyFolder → Bool
key_bundle_exists w = elim w.current [ none ↦ false | some name ↦ true ]
