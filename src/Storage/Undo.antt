-- ===== src/Storage/Undo.antt =====
-- The handler of `save_key_bundle`, which removes what has been written.
use lattica_studio.Prelude.{String, ◌≡◌, sym, ◌∙◌, false, inl, inr, Bool-cases}
use mathlib.Core.Path.{subst}
use lattica_studio.Prelude.Dict.{list_eq, string_eq, codes_eq, remove, get-remove}
use lattica_studio.Result.{Error}
use lattica_studio.Effects.{Event, raises}
use lattica_studio.Effects.Runs.{Runs, Runs-bind, Runs-weaken}
use lattica_studio.Credentials.{TokenIdentity, Bytes, QueryKey}
use lattica_studio.Storage.{Name, KeyFolder, unlink}
use lattica_studio.Storage.Save.{staging, drop_bundle}
use lattica_studio.Storage.Views.{IsPending, IsPending-remove, Keeps, resolve-Keeps}
use lattica_studio.Storage.Removal.{
  IsFine, Runs-rmtree, unlink_current, unlink_others, unlink_files,
}
use lattica_studio.Storage.Stages.{IsDamaged, IsNew, Seen, Failed, Replaced}

module _ (may : Event → Type 0) (Lost : KeyFolder → Type 0) (w : KeyFolder) (token : TokenIdentity)
    (key : QueryKey) (evaluation_key : Bytes) (revision : Name)
    (new : IsNew w token key evaluation_key revision)
    (lost : (e : Error) (w' : KeyFolder)
      → may (raises e)
      → IsDamaged token revision w'
      → Lost w') where
  abbrev pub See : KeyFolder → Type 0
  See = Seen may Lost w token key evaluation_key revision new

  abbrev pub Fail : Error → KeyFolder → Type 0
  Fail = Failed may Lost w token key evaluation_key revision new

  abbrev pub Raise : Error → KeyFolder → Type 0
  Raise e w' = may (raises e) × See w'

  abbrev pub New : KeyFolder → Type 0
  New = Replaced may Lost w token key evaluation_key revision new

  Keeps-unlink :
      (name : Name)
      → ((other : Name)
          → codes_eq revision other ≡ false
          → codes_eq (staging revision) other ≡ false
          → codes_eq name other ≡ false)
      → (file : String) (w' : KeyFolder) → Keeps revision w w'
      → Keeps revision w (unlink name file w')
  Keeps-unlink name apart file w' keeps = record {
    current_kept = unlink_current name file w' ∙ keeps.current_kept;
    others_kept = λ other h h'.
        unlink_others name other file w' (apart other h h') ∙ keeps.others_kept other h h';
  }

  Keeps-remove :
      (name : Name)
      → ((other : Name)
          → codes_eq revision other ≡ false
          → codes_eq (staging revision) other ≡ false
          → codes_eq name other ≡ false)
      → (w' : KeyFolder) → Keeps revision w w'
      → Keeps revision w (record w' { revisions = remove name w'.revisions })
  Keeps-remove name apart w' keeps = record {
    current_kept = keeps.current_kept;
    others_kept = λ other h h'.
        get-remove other name w'.revisions ∙ rw (apart other h h') (keeps.others_kept other h h');
  }

  pub Seen-IsFine : (w' : KeyFolder) → See w' → IsFine may See Raise w'
  Seen-IsFine w' seen = record { may_die = seen; may_raise = λ e m. (m, seen) }

  -- The handler in a world that keeps the old bundle, and in one where "current" is the new one.
  Runs-drop_kept :
      (e : Error) (w' : KeyFolder)
      → may (raises e)
      → Keeps revision w w'
      → Runs may See Raise (λ _. Raise e) (drop_bundle revision) w'
  unfolding drop_bundle
  Runs-drop_kept e w' m keeps =
      let seen =
        λ (v : KeyFolder) (k : Keeps revision w v). resolve-Keeps revision w v new.other k in
      let fine = λ (v : KeyFolder) (k : Keeps revision w v). Seen-IsFine v (inl (seen v k)) in
      let tree =
        λ (name : Name)
            (apart : (other : Name)
              → codes_eq revision other ≡ false
              → codes_eq (staging revision) other ≡ false
              → codes_eq name other ≡ false).
          Runs-rmtree may See Raise (Keeps revision w) fine name (Keeps-unlink name apart)
            (Keeps-remove name apart) in
      Runs-bind (tree (staging revision) (λ other h h'. h') w' keeps) λ _ v k.
        Runs-weaken (tree revision (λ other h h'. h) v k) (λ e' v' s. s)
          (λ a v' k'. (m, inl (seen v' k')))

  IsDamaged-unlink :
      (name : Name) (file : String) (w' : KeyFolder)
      → IsDamaged token revision w'
      → IsDamaged token revision (unlink name file w')
  IsDamaged-unlink name file w' damaged = record {
    named = unlink_current name file w' ∙ damaged.named;
    pending = λ files e. elim (unlink_files name revision file w' files e) [
      | inl same ↦ damaged.pending files same
      | inr (old, there, gone) ↦
          subst (IsPending token) gone (IsPending-remove token file old (damaged.pending old there))
    ];
  }

  IsDamaged-remove :
      (name : Name) (w' : KeyFolder)
      → IsDamaged token revision w'
      → IsDamaged token revision (record w' { revisions = remove name w'.revisions })
  IsDamaged-remove name w' damaged = record {
    named = damaged.named;
    pending = λ files e.
        let there = sym (get-remove revision name w'.revisions) ∙ e in
        elim (Bool-cases (codes_eq name revision)) [
          | inl gone ↦ cc (rw gone at there)
          | inr apart ↦ damaged.pending files (rw apart at there)
        ];
  }

  Runs-drop_lost :
      (e : Error) (w' : KeyFolder)
      → may (raises e)
      → IsDamaged token revision w'
      → Runs may See Raise (λ _. Raise e) (drop_bundle revision) w'
  unfolding drop_bundle
  Runs-drop_lost e w' m damaged =
      let seen = λ (v : KeyFolder) (d : IsDamaged token revision v). inr (inr (lost e v m d)) in
      let tree = λ (name : Name).
        Runs-rmtree may See Raise (IsDamaged token revision) (λ v c. Seen-IsFine v (seen v c)) name
          (IsDamaged-unlink name) (IsDamaged-remove name) in
      Runs-bind (tree (staging revision) w' damaged)
        λ _ v c. Runs-weaken (tree revision v c) (λ e' v' s. s) (λ a v' c'. (m, seen v' c'))

  pub Runs-drop :
      (e : Error) (w' : KeyFolder)
      → Fail e w'
      → Runs may See Raise (λ _. Raise e) (drop_bundle revision) w'
  Runs-drop e w' (m, inl keeps) = Runs-drop_kept e w' m keeps
  Runs-drop e w' (m, inr damaged) = Runs-drop_lost e w' m damaged
