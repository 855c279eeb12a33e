-- ===== src/Tests/Stored.antt =====
-- A key's directory with an old bundle, and a save of a new one.
use lattica_studio.Prelude.{◌≡◌, refl, List, [], ◌∷◌, ◌++◌, some, true, replicate, arith}
use lattica_studio.Prelude.Dict.{get, insert, remove}
use lattica_studio.Result.{ok, err, keyboard_interrupt, key_storage_error}
use lattica_studio.Studio.{get_field}
use lattica_studio.Effects.{Event, works, raises, dies, raised, effect, on_error, attempt, ◌>>=◌}
use lattica_studio.Credentials.{
  TokenIdentity, is_space, is_blank, make_identity, identity_to_dict, identity_from_dict,
  QueryToken, make_token, token_to_dict, token_from_dict, QueryKey, make_key,
}
use lattica_studio.Credentials.RoundTrip.{token_from_dict-to_dict}
use lattica_studio.Storage.{
  Name, KeyFolder, sync_folder, atomic_private_write, write_file, unlink_all, rmdir, rmtree,
}
use lattica_studio.Storage.Load.{
  StoredKey, lstrip, resolve_current_bundle, load_metadata, read_artifact, load_with, load_folder,
  load_key_bundle,
}
use lattica_studio.Storage.Save.{
  write_metadata, replace_folder, write_bundle, drop_bundle, remove_old_revisions, save_key_bundle,
}
use lattica_studio.Storage.Views.{complete, AreMade}
use lattica_studio.Storage.Stages.{IsNew, new_record}
use lattica_studio.Storage.Atomic.{
  IsAtomic, IsInterrupted, save_key_bundle-IsAtomic, save_key_bundle-IsInterrupted,
}

abbrev identity : TokenIdentity
identity = record { id = "t1"; name = some "first" }

abbrev token : QueryToken
token = record { value = "secret"; identity = identity }

identity_run : make_identity "t1" (some "first") ≡ ok identity
unfolding make_identity is_blank is_space
identity_run = refl

token_run : make_token "secret" identity ≡ ok token
unfolding make_token is_blank is_space
token_run = refl

token_from_dict-to_dict_example : token_from_dict (token_to_dict token) ≡ ok token
token_from_dict-to_dict_example = token_from_dict-to_dict token identity_run token_run

abbrev key : QueryKey
key = record { context = 1 ∷ []; secret_key = 2 ∷ []; client_model = 3 ∷ [] }

abbrev old_name : Name
old_name = replicate 32 b'a'

abbrev new_name : Name
new_name = replicate 32 b'b'

abbrev old_key : QueryKey
old_key = record { context = 4 ∷ []; secret_key = 5 ∷ []; client_model = 6 ∷ [] }

abbrev before : KeyFolder
before = record {
  current = some old_name;
  revisions = (old_name, complete identity old_key (8 ∷ []) true) ∷ [];
}

abbrev old_record : StoredKey
old_record = record {
  token = identity;
  key = old_key;
  revision = old_name;
  evaluation_key_uploaded = true;
}

key_made : AreMade identity key (7 ∷ [])
unfolding make_identity is_blank is_space make_key
key_made = record { token_made = refl; key_made = refl; evaluation_key_made = refl }

bundle-IsNew : IsNew before identity key (7 ∷ []) new_name
unfolding get insert lstrip is_space
bundle-IsNew = record {
  other = λ written e. ground arith;
  no_revision = refl;
  no_staging = refl;
  long = omega arith;
  hex = refl;
  made = key_made;
}

old_load : load_key_bundle before ≡ ok old_record
unfolding load_key_bundle resolve_current_bundle lstrip is_space load_folder load_metadata load_with
    read_artifact get insert get_field identity_to_dict identity_from_dict make_identity is_blank
    make_key
old_load = refl

-- Dead at the move of the staging directory.
abbrev plan : List Event
plan = replicate 37 works ++ (dies ∷ [])

save_key_bundle-IsAtomic_example :
    IsAtomic
      (load_key_bundle before)
      (new_record identity key new_name)
      (save_key_bundle identity key (7 ∷ []) new_name before plan)
save_key_bundle-IsAtomic_example =
    save_key_bundle-IsAtomic before identity key (7 ∷ []) new_name bundle-IsNew plan (omega arith)

-- Interrupted at the last effect of the write of "current".
abbrev interrupted : List Event
interrupted = replicate 44 works ++ (raises keyboard_interrupt ∷ [])

save_key_bundle-IsInterrupted_example :
    IsInterrupted
      (load_key_bundle before)
      (new_record identity key new_name)
      (save_key_bundle identity key (7 ∷ []) new_name before interrupted)
save_key_bundle-IsInterrupted_example =
    save_key_bundle-IsInterrupted before identity key (7 ∷ []) new_name bundle-IsNew interrupted

-- Then "current" names a directory that the handler has removed, and the old bundle is lost to a load.
abbrev after_interrupt : KeyFolder
after_interrupt = record {
  current = some new_name;
  revisions = (old_name, complete identity old_key (8 ∷ []) true) ∷ [];
}

interrupt_run :
    save_key_bundle identity key (7 ∷ []) new_name before interrupted
    ≡ raised keyboard_interrupt after_interrupt []
unfolding save_key_bundle effect on_error write_bundle drop_bundle remove_old_revisions write_file
    write_metadata replace_folder atomic_private_write sync_folder attempt rmtree unlink_all rmdir
    get insert remove ◌>>=◌
interrupt_run = refl

lost_load : load_key_bundle after_interrupt ≡ err key_storage_error
unfolding load_key_bundle resolve_current_bundle lstrip is_space get insert
lost_load = refl
