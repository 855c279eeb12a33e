-- ===== src/Keys/Registered.antt =====
-- A key that its directory marks as uploaded has been uploaded, whatever the effects of the code meet.
use mathlib.Core.Path.{subst}
use lattica_studio.Prelude.{◌≡◌, refl, sym, ap, ◌∙◌, List, [], ◌∷◌, true, ◌⊎◌, inr}
use lattica_studio.Prelude.Dict.{string_eq, list_eq, get, insert, get-insert}
use lattica_studio.Result.{ok, Error}
use lattica_studio.Effects.{Event, Outcome, done, raised, died, Action, effect}
use lattica_studio.Effects.Runs.{Holds, Runs, Runs-effect}
use lattica_studio.Credentials.{TokenIdentity, Bytes}
use lattica_studio.Storage.{document, Folder, Name, KeyFolder, make_folder, put_file}
use lattica_studio.Storage.Load.{StoredKey, uploaded, resolve_current_bundle, load_folder}
use lattica_studio.Storage.Save.{metadata_of}
use lattica_studio.Storage.Views.{IsPending, load_folder-IsPending}
use lattica_studio.Storage.Current.{resolve-IsCurrent, IsCurrent-resolve, IsCurrent-insert}
use lattica_studio.Storage.Mark.{marked, load_folder-marked}
use lattica_studio.Storage.Stages.{put_file_lem}
use lattica_studio.Keys.{World, in_world, on_folder, same, evaluation_content, give}

abbrev pub IsGiven : Bytes → List Bytes → Type 0
IsGiven bytes [] = ⊥
IsGiven bytes (first ∷ rest) = (bytes ≡ first) ⊎ IsGiven bytes rest

-- The evaluation key of the current bundle is among the backend's, if the bundle says so.
pub record IsRegistered (w : World) : Type 0 where
  pub is_given :
      (name : Name) (files : Folder) (stored : StoredKey) (bytes : Bytes)
      → resolve_current_bundle w.folder ≡ ok (name, files)
      → load_folder name files ≡ ok stored
      → stored.evaluation_key_uploaded ≡ true
      → evaluation_content (get "evaluation-key.bin" files) ≡ ok bytes
      → IsGiven bytes w.uploads

abbrev pub AnyEvent : Event → Type 0
AnyEvent event = Unit

-- Whatever the effects meet, the world stays registered, and an action that returns ends in `post`.
abbrev pub Stays : {A : Type 0} → (A → World → Type 0) → Action World A → World → Type 0
Stays post m w = Runs AnyEvent IsRegistered (λ e. IsRegistered) post m w

-- `stored` is what a load gives, of a directory with `files`.
pub record IsStored (stored : StoredKey) (files : Folder) (w : World) : Type 0 where
  pub resolves : resolve_current_bundle w.folder ≡ ok (stored.revision, files)
  pub loads : load_folder stored.revision files ≡ ok stored

pub Runs-on_folder :
    {A : Type 0} {crash : World → Type 0} {error : Error → World → Type 0}
    {post : A → World → Type 0} {m : Action KeyFolder A} {w : World}
    → Runs AnyEvent
        (λ f. crash (record w { folder = f }))
        (λ e f. error e (record w { folder = f }))
        (λ a f. post a (record w { folder = f }))
        m
        w.folder
    → Runs AnyEvent crash error post (on_folder m) w
unfolding on_folder
Runs-on_folder {A = A} {crash} {error} {post} {m} {w} h = record {
  at = λ plan all. go (m w.folder plan) (h.at plan all);
}
  where
    go :
        (o : Outcome KeyFolder A)
        → Holds AnyEvent
            (λ f. crash (record w { folder = f }))
            (λ e f. error e (record w { folder = f }))
            (λ a f. post a (record w { folder = f }))
            o
        → Holds AnyEvent crash error post (in_world w o)
    go (done a f plan) p = p
    go (raised e f plan) p = p
    go (died f) p = p

pub effect_stays :
    (w : World)
    → IsRegistered w
    → Runs AnyEvent IsRegistered (λ e. IsRegistered) (λ _ w'. w' ≡ w) (effect same) w
effect_stays w r = Runs-effect same w r (λ e m. r) refl

-- A bundle that is still pending says nothing of an upload.
pub pending-IsRegistered :
    (token : TokenIdentity) (w : World)
    → ((name : Name) (files : Folder)
        → resolve_current_bundle w.folder ≡ ok (name, files)
        → IsPending token files)
    → IsRegistered w
pending-IsRegistered token w pending = record {
  is_given = λ name files stored bytes e loads is_uploaded content.
      cc (load_folder-IsPending token files name stored (pending name files e) loads, is_uploaded);
}

pub give-IsRegistered : (bytes : Bytes) (w : World) → IsRegistered w → IsRegistered (give bytes w)
give-IsRegistered bytes w r = record {
  is_given = λ name files stored b e loads u content.
      inr (r.is_given name files stored b e loads u content);
}

-- The directory of a stored key once its metadata is marked.
abbrev pub mark_folder : StoredKey → KeyFolder → KeyFolder
mark_folder stored f =
    put_file stored.revision "metadata.json" (document (metadata_of stored.token true))
      (make_folder stored.revision f)

pub mark_folder_lem :
    (stored : StoredKey) (files : Folder) (w : World)
    → IsStored stored files w
    → mark_folder stored w.folder ≡ record w.folder {
      revisions = insert stored.revision (marked stored.token files) w.folder.revisions;
    }
mark_folder_lem stored files w is =
    put_file_lem stored.revision "metadata.json" (document (metadata_of stored.token true)) files
      w.folder (resolve-IsCurrent w.folder stored.revision files is.resolves).files_there

marked-resolve :
    (stored : StoredKey) (files : Folder) (w : World)
    → IsStored stored files w
    → resolve_current_bundle (mark_folder stored w.folder)
      ≡ ok (stored.revision, marked stored.token files)
marked-resolve stored files w is =
    ap resolve_current_bundle (mark_folder_lem stored files w is)
    ∙ IsCurrent-resolve _ stored.revision (marked stored.token files) (
        IsCurrent-insert w.folder stored.revision files (marked stored.token files)
          (resolve-IsCurrent w.folder stored.revision files is.resolves))

evaluation-marked :
    (token : TokenIdentity) (files : Folder)
    → get "evaluation-key.bin" (marked token files) ≡ get "evaluation-key.bin" files
evaluation-marked token files =
    get-insert "evaluation-key.bin" "metadata.json" (document (metadata_of token true)) files

module _ (stored : StoredKey) (files : Folder) (bytes : Bytes) (w : World)
    (is : IsStored stored files w)
    (content : evaluation_content (get "evaluation-key.bin" files) ≡ ok bytes)
    (given : IsGiven bytes w.uploads) where
  pub marked-IsRegistered : IsRegistered (record w { folder = mark_folder stored w.folder })
  marked-IsRegistered = record {
    is_given = λ name files' stored' bytes' e loads u content'.
        let same_place = sym (marked-resolve stored files w is) ∙ e in
        let same_files : marked stored.token files ≡ files' = cc same_place in
        let found =
          subst (λ fs. evaluation_content (get "evaluation-key.bin" fs) ≡ ok bytes')
            (sym same_files) content' in
        let found' =
          subst (λ c. evaluation_content c ≡ ok bytes') (evaluation-marked stored.token files)
            found in
        let same_bytes : bytes ≡ bytes' = cc (content, found') in
        subst (λ b. IsGiven b w.uploads) same_bytes given;
  }

  pub marked-IsStored :
      IsStored
        (uploaded stored)
        (marked stored.token files)
        (record w { folder = mark_folder stored w.folder })
  unfolding uploaded
  marked-IsStored = record {
    resolves = marked-resolve stored files w is;
    loads = load_folder-marked stored.revision files stored is.loads;
  }
