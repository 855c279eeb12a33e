-- ===== src/Storage/Stages.antt =====
-- The stages of `save_key_bundle`: what stands in a key's directory after each of its writes.
use lattica_studio.Prelude.{
  String, ◌≡◌, refl, sym, ap, ◌∙◌, [], ◌∷◌, none, some, true, false, ◌⊎◌, inl, arith, length, ◌==◌,
}
use mathlib.Core.Path.{subst}
use lattica_studio.Prelude.Dict.{
  list_eq, string_eq, codes_eq, beq_refl, get, insert, remove, get-insert, get-remove,
}
use lattica_studio.Result.{ok, Error}
use lattica_studio.Effects.{Event, raises}
use lattica_studio.Effects.Runs.{Runs, Runs-gets, Runs-effect, Runs-weaken, Runs-then}
use lattica_studio.Credentials.{TokenIdentity, Bytes, QueryKey}
use lattica_studio.Storage.{
  Content, Folder, Name, KeyFolder, make_folder, put_file, rename_folder, write_file,
}
use lattica_studio.Storage.Load.{StoredKey, all_hex, resolve_current_bundle}
use lattica_studio.Storage.Save.{staging, can_rename, replace_folder}
use lattica_studio.Storage.Views.{
  IsPending, Keeps, IsOther, resolve-Keeps, strip-hex, complete, AreMade,
}
use lattica_studio.Storage.Removal.{IsFine, Runs-atomic}

-- A new revision's name, 32 hexadecimal digits that no directory and no "current" has, with a token and
-- a key that their constructors have made.
pub record IsNew (w : KeyFolder) (token : TokenIdentity) (key : QueryKey) (evaluation_key : Bytes)
    (revision : Name) : Type 0 where
  pub other : IsOther revision w
  pub no_revision : get revision w.revisions ≡ none
  pub no_staging : get (staging revision) w.revisions ≡ none
  pub long : length revision ≡ 32
  pub hex : all_hex revision ≡ true
  pub made : AreMade token key evaluation_key

abbrev pub new_record : TokenIdentity → QueryKey → Name → StoredKey
new_record token key revision = record {
  token = token;
  key = key;
  revision = revision;
  evaluation_key_uploaded = false;
}

pub staging-ne-hex :
    (revision name : Name) → all_hex name ≡ true → codes_eq (staging revision) name ≡ false
staging-ne-hex revision [] h = refl
staging-ne-hex revision (c ∷ cs) h = ground arith

rename_folder_lem :
    (from to : Name) (files : Folder) (w : KeyFolder)
    → get from w.revisions ≡ some files
    → rename_folder from to w ≡ record w { revisions = insert to files (remove from w.revisions) }
rename_folder_lem from to files w e = rw (e, rename_folder)

pub make_folder_lem :
    (name : Name) (files : Folder) (w : KeyFolder)
    → get name w.revisions ≡ some files
    → make_folder name w ≡ w
make_folder_lem name files w e = rw (e, make_folder)

pub put_file_lem :
    (name : Name) (file : String) (content : Content) (files : Folder) (w : KeyFolder)
    → get name w.revisions ≡ some files
    → put_file name file content (make_folder name w)
      ≡ record w { revisions = insert name (insert file content files) w.revisions }
put_file_lem name file content files w e =
    ap (put_file name file content) (make_folder_lem name files w e) ∙ rw (e, put_file)

-- "current" names the revision, and what is left of its directory is still pending.
pub record IsDamaged (token : TokenIdentity) (revision : Name) (w : KeyFolder) : Type 0 where
  pub named : w.current ≡ some revision
  pub pending : (files : Folder) → get revision w.revisions ≡ some files → IsPending token files

module _ (may : Event → Type 0) (Lost : KeyFolder → Type 0) (w : KeyFolder) (token : TokenIdentity)
    (key : QueryKey) (evaluation_key : Bytes) (revision : Name)
    (new : IsNew w token key evaluation_key revision) where
  -- What a load sees, at whatever point the process has died or raised.
  abbrev pub Seen : KeyFolder → Type 0
  Seen w' =
      (resolve_current_bundle w' ≡ resolve_current_bundle w)
      ⊎ (resolve_current_bundle w' ≡ ok (revision, complete token key evaluation_key false))
      ⊎ Lost w'

  abbrev pub Failed : Error → KeyFolder → Type 0
  Failed e w' = may (raises e) × (Keeps revision w w' ⊎ IsDamaged token revision w')

  pub Keeps-IsFine : (w' : KeyFolder) → Keeps revision w w' → IsFine may Seen Failed w'
  Keeps-IsFine w' keeps = record {
    may_die = inl (resolve-Keeps revision w w' new.other keeps);
    may_raise = λ e m. (m, inl keeps);
  }

  -- The new bundle stands in its staging directory, so far.
  pub record Staged (files : Folder) (w' : KeyFolder) : Type 0 where
    pub staged_current : w'.current ≡ w.current
    pub staged_files : get (staging revision) w'.revisions ≡ some files
    pub staged_others :
        (name : Name)
        → codes_eq (staging revision) name ≡ false
        → get name w'.revisions ≡ get name w.revisions

  pub Staged-Keeps : (files : Folder) (w' : KeyFolder) → Staged files w' → Keeps revision w w'
  Staged-Keeps files w' staged = record {
    current_kept = staged.staged_current;
    others_kept = λ name not_revision not_staging. staged.staged_others name not_staging;
  }

  Staged-write :
      (files : Folder) (file : String) (content : Content) (w' : KeyFolder)
      → Staged files w'
      → Staged
          (insert file content files)
          (put_file (staging revision) file content (make_folder (staging revision) w'))
  Staged-write files file content w' staged =
      subst (Staged (insert file content files))
        (sym (put_file_lem (staging revision) file content files w' staged.staged_files))
        (record {
          staged_current = staged.staged_current;
          staged_files =
              get-insert (staging revision) (staging revision) (insert file content files)
                w'.revisions
              ∙ rw (beq_refl (staging revision)) refl;
          staged_others = λ name h.
              get-insert name (staging revision) (insert file content files) w'.revisions
              ∙ rw h (staged.staged_others name h);
        })

  -- A write into the staging directory.
  pub Runs-write :
      (files : Folder) (file : String) (content : Content) (w' : KeyFolder)
      → Staged files w'
      → Runs may Seen Failed
          (λ _. Staged (insert file content files))
          (write_file (staging revision) file content)
          w'
  unfolding write_file
  Runs-write files file content w' staged =
      let name = staging revision in
      let written = Staged-write files file content w' staged in
      let fine = Keeps-IsFine w' (Staged-Keeps files w' staged) in
      Runs-weaken
        (Runs-atomic may Seen Failed (make_folder name) (put_file name file content) w' fine
          (subst (IsFine may Seen Failed) (sym (make_folder_lem name files w' staged.staged_files))
            fine)
          (Keeps-IsFine (put_file name file content (make_folder name w')) (
            Staged-Keeps (insert file content files)
              (put_file name file content (make_folder name w')) written)))
        (λ e w'' f. f) (λ a w'' same. subst (Staged (insert file content files)) (sym same) written)

  -- The new bundle stands in place, and "current" is still the old one.
  pub record Moved (w' : KeyFolder) : Type 0 where
    pub moved_keeps : Keeps revision w w'
    pub moved_files : get revision w'.revisions ≡ some (complete token key evaluation_key false)

  pub record Replaced (w' : KeyFolder) : Type 0 where
    pub now_current : w'.current ≡ some revision
    pub now_files : get revision w'.revisions ≡ some (complete token key evaluation_key false)

  pub resolve-Replaced :
      (w' : KeyFolder)
      → Replaced w'
      → resolve_current_bundle w' ≡ ok (revision, complete token key evaluation_key false)
  unfolding resolve_current_bundle
  resolve-Replaced w' replaced =
      let c = replaced.now_current in
      let f = replaced.now_files in
      let s = strip-hex revision new.hex in
      let l : (length revision == 32) ≡ true = rw (new.long) refl in
      let h = new.hex in rw (c, s, l, h, f)

  moved :
      (w' : KeyFolder)
      → Staged (complete token key evaluation_key false) w'
      → Moved (record w' {
        revisions =
            insert revision
              (complete token key evaluation_key false)
              (remove (staging revision) w'.revisions);
      })
  moved w' staged =
      let files = complete token key evaluation_key false in
      let rest = remove (staging revision) w'.revisions in
      record {
        moved_keeps = record {
          current_kept = staged.staged_current;
          others_kept = λ name h h'.
              get-insert name revision files rest
              ∙ rw h (
                  get-remove name (staging revision) w'.revisions
                  ∙ rw h' (staged.staged_others name h'));
        };
        moved_files = get-insert revision revision files rest ∙ rw (beq_refl revision) refl;
      }

  pub Runs-replace :
      (w' : KeyFolder)
      → Staged (complete token key evaluation_key false) w'
      → Runs may Seen Failed (λ _. Moved) (replace_folder (staging revision) revision) w'
  unfolding replace_folder
  Runs-replace w' staged =
      let name = staging revision in
      let files = staged.staged_files in
      let free : get revision w'.revisions ≡ none =
        staged.staged_others revision (staging-ne-hex revision revision new.hex)
        ∙ new.no_revision in
      let fine =
        Keeps-IsFine w' (Staged-Keeps (complete token key evaluation_key false) w' staged) in
      Runs-then {t = w'}
        (Runs-gets (λ v. can_rename (get name v.revisions) (get revision v.revisions)) w'
          (rw (files, free)) refl)
        λ _. Runs-effect (rename_folder name revision) w' fine.may_die fine.may_raise (
          subst Moved
            (sym
              (rename_folder_lem name revision (complete token key evaluation_key false) w' files))
            (moved w' staged))
