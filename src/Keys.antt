-- ===== src/Keys.antt =====
-- KeysAPI of lattica_query_src/lattica_query/client/keys.py: generating, loading and registering the key of
-- one token. The world is the key's directory and the evaluation keys that the backend has been given.
pub mod Registered
pub mod Upload
pub mod NewBundle
pub mod Ensure
pub mod History
use lattica_studio.Prelude.{
  String, str_eq, List, [], ◌∷◌, Option, none, some, Bool, true, false, not, if◌then◌else◌,
}
use lattica_studio.Prelude.Dict.{string_eq, list_eq, get}
use lattica_studio.Result.{
  Result, ok, err, value_error, file_not_found_error, key_token_mismatch_error,
}
use lattica_studio.Effects.{
  Event, Outcome, done, raised, died, Action, effect, pure, from_result, gets, finally, ◌>>=◌, ◌>>◌,
}
use lattica_studio.Credentials.{TokenIdentity, Bytes, QueryKey, make_key}
use lattica_studio.Storage.{Content, raw, document, Folder, Name, KeyFolder}
use lattica_studio.Storage.Load.{StoredKey, load_key_bundle, key_bundle_exists}
use lattica_studio.Storage.Save.{save_key_bundle, mark_key_uploaded}

pub record World : Type 0 where
  pub folder : KeyFolder
  pub uploads : List Bytes

abbrev pub in_world : {A : Type 0} → World → Outcome KeyFolder A → Outcome World A
in_world w (done a folder plan) = done a (record w { folder = folder }) plan
in_world w (raised e folder plan) = raised e (record w { folder = folder }) plan
in_world w (died folder) = died (record w { folder = folder })

-- An action on the key's directory.
unfoldable pub on_folder : {A : Type 0} → Action KeyFolder A → Action World A
on_folder m w plan = in_world w (m w.folder plan)

abbrev pub same : World → World
same w = w

-- What the code reads of the worker, the backend and the native library: the initialization data (context
-- and client model), `fhe_core.generate_key(client_model, context)` and `is_worker_up`.
pub record Services : Type 0 where
  pub initialization : Result (Bytes × Bytes)
  pub generate_key : Bytes → Bytes → Bytes × Bytes
  pub is_worker_up : Result Bool

-- The evaluation key's file: no file raises at `stat`, and an empty one is refused.
abbrev pub evaluation_content : Option Content → Result Bytes
evaluation_content none = err file_not_found_error
evaluation_content (some (raw [])) = err value_error
evaluation_content (some (raw (b ∷ bs))) = ok (b ∷ bs)
evaluation_content (some (document j)) = err value_error

abbrev pub evaluation_of : Option Folder → Result Bytes
evaluation_of none = err file_not_found_error
evaluation_of (some files) = evaluation_content (get "evaluation-key.bin" files)

abbrev pub give : Bytes → World → World
give bytes w = record w { uploads = bytes ∷ w.uploads }

-- The token of a record must have the id of the client's token.
abbrev pub of_token : TokenIdentity → Result StoredKey → Result StoredKey
of_token identity (err e) = err e
of_token identity (ok stored) =
    if str_eq stored.token.id identity.id then ok stored else err key_token_mismatch_error

-- The lock around each method: an effect to take it, one to give it back.
unfoldable pub locked : {A : Type 0} → Action World A → Action World A
unfolding effect finally ◌>>=◌
locked m = do effect same; finally m (effect same)

-- `_load_bundle`
unfoldable pub load_bundle : TokenIdentity → Action World StoredKey
unfolding load_key_bundle
load_bundle identity = gets (λ w. of_token identity (load_key_bundle w.folder))

-- `load`
unfoldable pub load : TokenIdentity → Action World QueryKey
unfolding locked load_bundle ◌>>=◌
load identity = locked (do stored ← load_bundle identity; pure stored.key)

module _ (services : Services) where
  -- `_upload_evaluation_key`: the upload, and the worker told of it where one is up.
  unfoldable pub upload_evaluation_key : Name → Action World (Unit {0})
  unfolding effect ◌>>=◌
  upload_evaluation_key revision = do
    bytes ← gets (λ w. evaluation_of (get revision w.folder.revisions))
    effect (give bytes)
    is_up ← from_result services.is_worker_up
    if is_up then effect same else pure tt

  -- `_register`
  unfoldable pub register : StoredKey → Action World StoredKey
  unfolding upload_evaluation_key on_folder mark_key_uploaded ◌>>=◌
  register stored = do upload_evaluation_key stored.revision; on_folder (mark_key_uploaded stored)

  -- The end of `_generate`, and of `ensure` on a bundle that is there.
  unfoldable pub registered_if : Bool → StoredKey → Action World QueryKey
  unfolding register ◌>>=◌
  registered_if true stored = do final ← register stored; pure final.key
  registered_if false stored = pure stored.key

  abbrev pub initialization_or : Option (Bytes × Bytes) → Result (Bytes × Bytes)
  initialization_or none = services.initialization
  initialization_or (some given) = ok given

  -- `_generate`; the new revision's name is an argument.
  unfoldable pub generate_key_bundle :
      TokenIdentity → Name → Option (Bytes × Bytes) → Bool → Action World QueryKey
  unfolding registered_if on_folder save_key_bundle ◌>>=◌
  generate_key_bundle identity revision initialization is_registered = do
    data_of ← from_result (initialization_or initialization)
    let keys = services.generate_key data_of.1 data_of.0
    key ← from_result (make_key data_of.0 keys.0 data_of.1)
    stored ← on_folder (save_key_bundle identity key keys.1 revision)
    registered_if is_registered stored

  -- `generate`
  unfoldable pub generate :
      TokenIdentity → Name → Option (Bytes × Bytes) → Bool → Action World QueryKey
  unfolding locked generate_key_bundle
  generate identity revision initialization is_registered =
      locked (generate_key_bundle identity revision initialization is_registered)

  -- The two branches of `ensure`
  unfoldable pub ensure_from : Bool → TokenIdentity → Name → Action World QueryKey
  unfolding generate_key_bundle load_bundle registered_if ◌>>=◌
  ensure_from false identity revision = generate_key_bundle identity revision none true
  ensure_from true identity revision = do
    stored ← load_bundle identity
    registered_if (not stored.evaluation_key_uploaded) stored

  -- `ensure`
  unfoldable pub ensure : TokenIdentity → Name → Action World QueryKey
  unfolding locked ensure_from ◌>>=◌
  ensure identity revision = locked (do
    is_there ← gets (λ w. ok (key_bundle_exists w.folder))
    ensure_from is_there identity revision)
