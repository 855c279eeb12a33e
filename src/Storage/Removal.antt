-- ===== src/Storage/Removal.antt =====
-- The effects of storage/_files.py and of `rmtree`, whatever they meet.
use lattica_studio.Prelude.{
  String, ◌≡◌, refl, sym, ◌∙◌, List, [], ◌∷◌, Option, none, some, ◌⊎◌, Bool, true, false, inl, inr,
  Option-cases, Bool-cases, if◌then◌else◌,
}
use lattica_studio.Prelude.Dict.{
  list_eq, string_eq, codes_eq, codes_eq_iff, get, remove, get-insert,
}
use lattica_studio.Result.{Error, ok, err, os_error}
use lattica_studio.Effects.{Event, raises, effect, ◌>>◌, pure}
use lattica_studio.Effects.Runs.{
  Runs, Runs-pure, Runs-gets, Runs-gets_any, Runs-effect, Runs-bind, Runs-on_error, Runs-attempt,
  Runs-from, Runs-then,
}
use lattica_studio.Storage.{
  Name, KeyFolder, same_world, sync_folder, atomic_private_write, unlink, unlink_all, rmdir, rmtree,
  files_of, can_rmdir, Folder,
}

module _ (may : Event → Type 0) (crash : KeyFolder → Type 0)
    (error : Error → KeyFolder → Type 0) where
  -- A world in which the process may die, and in which it may be interrupted.
  pub record IsFine (w : KeyFolder) : Type 0 where
    pub may_die : crash w
    pub may_raise : (e : Error) → may (raises e) → error e w

  pub Runs-stay :
      (w : KeyFolder) → IsFine w → Runs may crash error (λ _ w'. w' ≡ w) (effect same_world) w
  Runs-stay w fine = Runs-effect same_world w fine.may_die fine.may_raise refl

  Runs-sync : (w : KeyFolder) → IsFine w → Runs may crash error (λ _ w'. w' ≡ w) sync_folder w
  unfolding sync_folder
  Runs-sync w fine =
      Runs-then
        (Runs-attempt
          (Runs-effect same_world w fine.may_die (λ e m. (refl, inr (fine.may_raise e m))) refl))
        λ opened. sync_rest opened
    where
      sync_rest :
          (opened : Bool)
          → Runs may crash error (λ _ w'. w' ≡ w) (if opened then effect same_world else pure tt) w
      sync_rest true = Runs-stay w fine
      sync_rest false = Runs-pure tt w refl

  -- A write ends in the new world; before, it stands in the old one or in that with the directory.
  pub Runs-atomic :
      (make write : KeyFolder → KeyFolder) (w : KeyFolder)
      → IsFine w
      → IsFine (make w)
      → IsFine (write (make w))
      → Runs may crash error (λ _ w'. w' ≡ write (make w)) (atomic_private_write make write) w
  unfolding atomic_private_write
  Runs-atomic make write w before made after =
      Runs-then (Runs-effect make w before.may_die before.may_raise refl) λ _.
        Runs-then (Runs-stay (make w) made) λ _.
          Runs-then
            (Runs-on_error {failed = λ e w'. may (raises e) × (w' ≡ make w)} replaced
              (λ e w' (m, same).
                Runs-from same (
                  Runs-effect same_world (make w) made.may_die made.may_raise
                    (made.may_raise e m))))
            λ _. Runs-sync (write (make w)) after
    where
      replaced :
          Runs may crash
            (λ e w'. may (raises e) × (w' ≡ make w))
            (λ _ w'. w' ≡ write (make w))
            (effect same_world >> (effect same_world >> effect write))
            (make w)
      replaced =
          let still = Runs-effect same_world (make w) made.may_die (λ e m. (m, refl)) refl in
          Runs-then still λ _.
            Runs-then still λ _. Runs-effect write (make w) made.may_die (λ e m. (m, refl)) refl

  -- A removal keeps what holds whichever files and directories of that name are gone.
  module _ (Safe : KeyFolder → Type 0) (fine : (w : KeyFolder) → Safe w → IsFine w) (name : Name)
      (unlink_safe : (file : String) (w : KeyFolder) → Safe w → Safe (unlink name file w))
      (remove_safe : (w : KeyFolder)
        → Safe w
        → Safe (record w { revisions = remove name w.revisions })) where
    Runs-unlink_all :
        (files : List String) (w : KeyFolder)
        → Safe w
        → Runs may crash error (λ _. Safe) (unlink_all name files) w
    unfolding unlink_all
    Runs-unlink_all [] w safe = Runs-pure tt w safe
    Runs-unlink_all (file ∷ files) w safe =
        Runs-bind {post = λ _. Safe}
          (Runs-attempt (
            Runs-effect (unlink name file) w (fine w safe).may_die
              (λ e m. (safe, inr ((fine w safe).may_raise e m))) (unlink_safe file w safe)))
          λ _ w' safe'. Runs-unlink_all files w' safe'

    Runs-rmdir :
        (w : KeyFolder)
        → Safe w
        → Runs may crash
            (λ e w'. Safe w' × ((e ≡ os_error) ⊎ error e w'))
            (λ _. Safe)
            (rmdir name)
            w
    unfolding rmdir
    Runs-rmdir w safe =
        Runs-then {t = w}
          (Runs-gets_any (λ v. can_rmdir (get name v.revisions)) w (λ a e. refl)
            (λ e h. (safe, inl (fails (get name w.revisions) h))))
          λ _.
            Runs-effect (λ v. record v { revisions = remove name v.revisions }) w
              (fine w safe).may_die (λ e m. (safe, inr ((fine w safe).may_raise e m)))
              (remove_safe w safe)
      where
        fails : (found : Option Folder) {e : Error} → can_rmdir found ≡ err e → e ≡ os_error
        fails none h = cc
        fails (some []) h = cc
        fails (some (file ∷ files)) h = cc

    pub Runs-rmtree : (w : KeyFolder) → Safe w → Runs may crash error (λ _. Safe) (rmtree name) w
    unfolding rmtree
    Runs-rmtree w safe =
        Runs-then {t = w} (Runs-gets (λ v. ok (files_of (get name v.revisions))) w refl refl)
          λ files. Runs-bind {post = λ _. Safe} (Runs-unlink_all files w safe) λ _ w' safe'.
            Runs-bind {post = λ _. Safe} (Runs-attempt (Runs-rmdir w' safe'))
              λ _ w'' safe''. Runs-pure tt w'' safe''

-- A file that goes changes neither "current" nor another directory.
pub unlink_current :
    (name : Name) (file : String) (w : KeyFolder) → (unlink name file w).current ≡ w.current
unlink_current name file w = elim (Option-cases (get name w.revisions)) [
  | inl e ↦ rw (e, unlink)
  | inr (files, e) ↦ rw (e, unlink)
]

pub unlink_others :
    (name other : Name) (file : String) (w : KeyFolder)
    → codes_eq name other ≡ false
    → get other (unlink name file w).revisions ≡ get other w.revisions
unlink_others name other file w h = elim (Option-cases (get name w.revisions)) [
  | inl e ↦ rw (e, unlink)
  | inr (files, e) ↦
      rw (e, unlink) (get-insert other name (remove file files) w.revisions ∙ rw h refl)
]

-- A directory after a file has gone, the same or another: as it was, or without the file.
pub unlink_files :
    (name other : Name) (file : String) (w : KeyFolder) (files : Folder)
    → get other (unlink name file w).revisions ≡ some files
    → (get other w.revisions ≡ some files)
      ⊎ ((old : Folder) × (get other w.revisions ≡ some old) × (remove file old ≡ files))
unlink_files name other file w files h = elim (Option-cases (get name w.revisions)) [
  | inl e ↦ inl (rw (e, unlink) at h)
  | inr (old, e) ↦
      let written =
        sym (get-insert other name (remove file old) w.revisions) ∙ (rw (e, unlink) at h) in
      elim (Bool-cases (codes_eq name other)) [
        | inl same ↦
            let name_is = (codes_eq_iff name other).0 same in
            inr (old, rw name_is at e, cc (rw same at written))
        | inr apart ↦ inl (rw apart at written)
      ]
]
