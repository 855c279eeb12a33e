-- ===== src/Storage/Save.antt =====
-- Writing a key bundle: lattica_query_src/lattica_query/storage/key_store.py. The revision's name,
-- `uuid.uuid4().hex`, is an argument.
use lattica_studio.Prelude.{List, [], ◌∷◌, ◌++◌, Option, none, some, Bool, false}
use lattica_studio.Prelude.Int.{pos}
use lattica_studio.Prelude.Dict.{string_eq, list_eq, get}
use lattica_studio.Result.{Result, ok, err, value_error, os_error, raise_if}
use lattica_studio.Effects.{Action, effect, gets, from_result, pure, on_error, ◌>>=◌, ◌>>◌}
use lattica_studio.Studio.{Json, Fields, number, boolean, object, no_fields, field}
use lattica_studio.Credentials.{TokenIdentity, identity_to_dict, Bytes, is_empty, QueryKey}
use lattica_studio.Storage.{
  raw, document, Folder, Name, KeyFolder, same_world, make_folder, put_current, rename_folder,
  atomic_private_write, write_file, rmtree, remove_others,
}
use lattica_studio.Storage.Load.{StoredKey, uploaded}

-- `f".{revision}.tmp"`
abbrev pub staging : Name → Name
staging revision = b'.' ∷ (revision ++ (b'.' ∷ b't' ∷ b'm' ∷ b'p' ∷ []))

-- The document of `_write_metadata`
abbrev pub metadata_fields : TokenIdentity → Bool → Fields
metadata_fields token is_uploaded = field "version" (number (pos 4)) (
    field "token" (identity_to_dict token)
      (field "evaluation_key_uploaded" (boolean is_uploaded) no_fields))

abbrev pub metadata_of : TokenIdentity → Bool → Json
metadata_of token is_uploaded = object (metadata_fields token is_uploaded)

-- `_write_metadata` into the directory of that name
unfoldable pub write_metadata : StoredKey → Name → Action KeyFolder (Unit {0})
unfolding write_file
write_metadata stored name =
    write_file name "metadata.json"
      (document (metadata_of stored.token stored.evaluation_key_uploaded))

abbrev pub can_rename : Option Folder → Option Folder → Result (Unit {0})
can_rename none there = err os_error
can_rename (some files) none = ok tt
can_rename (some files) (some []) = ok tt
can_rename (some files) (some (file ∷ others)) = err os_error

-- `os.replace(staging_path, bundle_path)`
unfoldable pub replace_folder : Name → Name → Action KeyFolder (Unit {0})
unfolding effect ◌>>=◌
replace_folder from to = do
  gets (λ w. can_rename (get from w.revisions) (get to w.revisions))
  effect (rename_folder from to)

abbrev pub folder_names : List (Name × Folder) → List Name
folder_names [] = []
folder_names ((name, files) ∷ rest) = name ∷ folder_names rest

-- `_remove_old_revisions`
unfoldable pub remove_old_revisions : Name → Action KeyFolder (Unit {0})
unfolding effect remove_others ◌>>=◌
remove_old_revisions current = do
  effect same_world
  names ← gets (λ w. ok (folder_names w.revisions))
  remove_others current names

-- The writes into the staging directory, its move into place and the write of "current".
unfoldable pub write_bundle : StoredKey → Bytes → Action KeyFolder (Unit {0})
unfolding write_file write_metadata replace_folder atomic_private_write ◌>>=◌
write_bundle stored evaluation_key = do
  let name = staging stored.revision
  write_file name "context.bin" (raw stored.key.context)
  write_file name "secret-key.bin" (raw stored.key.secret_key)
  write_file name "client-model.bin" (raw stored.key.client_model)
  write_file name "evaluation-key.bin" (raw evaluation_key)
  write_metadata stored name
  replace_folder name stored.revision
  atomic_private_write same_world (put_current stored.revision)

-- The handler of `save_key_bundle`
unfoldable pub drop_bundle : Name → Action KeyFolder (Unit {0})
unfolding rmtree ◌>>=◌
drop_bundle revision = do rmtree (staging revision); rmtree revision

unfoldable pub save_key_bundle :
    TokenIdentity → QueryKey → Bytes → Name → Action KeyFolder StoredKey
unfolding effect on_error write_bundle drop_bundle remove_old_revisions ◌>>=◌
save_key_bundle token key evaluation_key revision = do
  from_result (raise_if (is_empty evaluation_key) value_error)
  effect same_world
  effect (make_folder (staging revision))
  let stored : StoredKey = record {
    token = token;
    key = key;
    revision = revision;
    evaluation_key_uploaded = false;
  }
  on_error (write_bundle stored evaluation_key) (drop_bundle revision)
  remove_old_revisions revision
  pure stored

-- `mark_key_uploaded`
unfoldable pub mark_key_uploaded : StoredKey → Action KeyFolder StoredKey
unfolding write_metadata uploaded ◌>>=◌
mark_key_uploaded stored = do
  write_metadata (uploaded stored) stored.revision
  pure (uploaded stored)
