-- ===== src/Keys/Upload.antt =====
-- The upload of an evaluation key and the mark that follows it.
use mathlib.Core.Path.{subst}
use lattica_studio.Prelude.{◌≡◌, refl, sym, ap, ◌∙◌, Bool, true, false, inl, inr, if◌then◌else◌}
use lattica_studio.Prelude.Dict.{string_eq, list_eq, get}
use lattica_studio.Result.{ok, Error, Result-cases}
use lattica_studio.Effects.{effect, pure, from_result}
use lattica_studio.Effects.Runs.{
  Runs-pure, Runs-result, Runs-gets_any, Runs-effect, Runs-bind, Runs-from, Runs-then,
}
use lattica_studio.Credentials.{Bytes, QueryKey}
use lattica_studio.Storage.{document, Folder, KeyFolder, make_folder, put_file, write_file}
use lattica_studio.Storage.Load.{StoredKey, uploaded}
use lattica_studio.Storage.Save.{metadata_of, write_metadata, mark_key_uploaded}
use lattica_studio.Storage.Current.{resolve-IsCurrent}
use lattica_studio.Storage.Mark.{marked}
use lattica_studio.Storage.Removal.{IsFine, Runs-atomic}
use lattica_studio.Storage.Stages.{make_folder_lem}
use lattica_studio.Keys.{
  World, on_folder, same, Services, evaluation_content, evaluation_of, give, upload_evaluation_key,
  register, registered_if,
}
use lattica_studio.Keys.Registered.{
  IsGiven, IsRegistered, AnyEvent, Stays, IsStored, Runs-on_folder, give-IsRegistered, mark_folder,
  marked-IsRegistered, marked-IsStored,
}

-- The key that a method returns is the current bundle's, which is marked as uploaded.
abbrev pub IsReady : QueryKey → World → Type 0
IsReady key w =
    IsRegistered w
    × ((stored : StoredKey) × (files : Folder) × IsStored stored files w
        × (stored.key ≡ key)
        × (stored.evaluation_key_uploaded ≡ true))

-- The evaluation key of the stored key is among the backend's.
abbrev Uploaded : StoredKey → Folder → World → Type 0
Uploaded stored files w =
    IsRegistered w
    × IsStored stored files w
    × ((bytes : Bytes) × (evaluation_content (get "evaluation-key.bin" files) ≡ ok bytes)
        × IsGiven bytes w.uploads)

module _ (services : Services) where
  -- After the upload the key is among the backend's, and nothing else has changed.
  Runs-upload :
      (stored : StoredKey) (files : Folder) (w : World)
      → IsRegistered w
      → IsStored stored files w
      → Stays (λ _. Uploaded stored files) (upload_evaluation_key services stored.revision) w
  unfolding upload_evaluation_key
  Runs-upload stored files w r is =
      let there = (resolve-IsCurrent w.folder stored.revision files is.resolves).files_there in
      Runs-bind
        {post = λ bytes w'.
          (w' ≡ w) × (evaluation_content (get "evaluation-key.bin" files) ≡ ok bytes)}
        (Runs-gets_any (λ v. evaluation_of (get stored.revision v.folder.revisions)) w
          (λ bytes e. (refl, sym (ap evaluation_of there) ∙ e)) (λ e h. r))
        λ bytes w' (at, content). Runs-from at (
          Runs-then (Runs-effect (give bytes) w r (λ e m. r) refl) λ _.
            let r' = give-IsRegistered bytes w r in
            let given : Uploaded stored files (give bytes w) = (
              r',
              record { resolves = is.resolves; loads = is.loads },
              (bytes, content, inl refl),
            ) in
            Runs-bind {post = λ is_up w'. w' ≡ give bytes w} (answer (give bytes w) r')
              λ is_up w'' at'. Runs-from at' (told is_up (give bytes w) given))
    where
      answer :
          (v : World)
          → IsRegistered v
          → Stays (λ is_up w'. w' ≡ v) (from_result services.is_worker_up) v
      answer v rv = elim (Result-cases services.is_worker_up) [
        | inl (a, e) ↦ Runs-result services.is_worker_up v e refl
        | inr (x, e) ↦ record { at = λ plan all. rw e (rv, all) }
      ]

      told :
          (is_up : Bool) (v : World)
          → Uploaded stored files v
          → Stays (λ _. Uploaded stored files) (if is_up then effect same else pure tt) v
      told true v given = Runs-effect same v given.0 (λ e m. given.0) given
      told false v given = Runs-pure tt v given

Runs-mark :
    (stored : StoredKey) (files : Folder) (w : World)
    → Uploaded stored files w
    → Stays (λ final. IsReady final.key) (on_folder (mark_key_uploaded stored)) w
unfolding mark_key_uploaded write_metadata write_file uploaded
Runs-mark stored files w (r, is, (bytes, content, given)) =
    let crash = λ (f : KeyFolder). IsRegistered (record w { folder = f }) in
    let error = λ (e : Error) (f : KeyFolder). IsRegistered (record w { folder = f }) in
    let there = (resolve-IsCurrent w.folder stored.revision files is.resolves).files_there in
    let fine : IsFine AnyEvent crash error w.folder = record {
      may_die = r;
      may_raise = λ e m. r;
    } in
    let r' = marked-IsRegistered stored files bytes w is content given in
    let ready : IsReady stored.key (record w { folder = mark_folder stored w.folder }) = (
      r',
      (
        uploaded stored,
        marked stored.token files,
        marked-IsStored stored files bytes w is content given,
        refl,
        refl,
      ),
    ) in
    Runs-on_folder (
      Runs-then
        (Runs-atomic AnyEvent crash error (make_folder stored.revision)
          (put_file stored.revision "metadata.json" (document (metadata_of stored.token true)))
          w.folder fine
          (subst (IsFine AnyEvent crash error)
            (sym (make_folder_lem stored.revision files w.folder there)) fine)
          (record { may_die = r'; may_raise = λ e m. r' }))
        λ _. Runs-pure (uploaded stored) (mark_folder stored w.folder) ready)

-- What a method that returns has reached: a ready key, or one whose upload is still to come.
abbrev pub IsReturned : Bool → QueryKey → World → Type 0
IsReturned true key w = IsReady key w
IsReturned false key w = IsRegistered w

module _ (services : Services) where
  pub Runs-register :
      (stored : StoredKey) (files : Folder) (w : World)
      → IsRegistered w
      → IsStored stored files w
      → Stays (λ final. IsReady final.key) (register services stored) w
  unfolding register
  Runs-register stored files w r is =
      Runs-bind (Runs-upload services stored files w r is)
        (λ _ w' given. Runs-mark stored files w' given)

  pub Runs-registered_if :
      (is_registered : Bool) (stored : StoredKey) (files : Folder) (w : World)
      → IsRegistered w
      → IsStored stored files w
      → Stays (IsReturned is_registered) (registered_if services is_registered stored) w
  unfolding registered_if
  Runs-registered_if true stored files w r is =
      Runs-bind (Runs-register stored files w r is) (λ final w' ready. Runs-pure final.key w' ready)
  Runs-registered_if false stored files w r is = Runs-pure stored.key w r

  pub Runs-as_it_is :
      (stored : StoredKey) (files : Folder) (w : World)
      → IsRegistered w
      → IsStored stored files w
      → stored.evaluation_key_uploaded ≡ true
      → Stays IsReady (registered_if services false stored) w
  unfolding registered_if
  Runs-as_it_is stored files w r is e = Runs-pure stored.key w (r, (stored, files, is, refl, e))

pub returned-IsRegistered :
    (is_registered : Bool) (key : QueryKey) (w : World)
    → IsReturned is_registered key w
    → IsRegistered w
returned-IsRegistered true key w ready = ready.0
returned-IsRegistered false key w r = r
