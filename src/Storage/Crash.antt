-- ===== src/Storage/Crash.antt =====
-- `save_key_bundle`, step by step, whatever its effects meet.
use lattica_studio.Prelude.{
  ◌≡◌, refl, sym, ◌∙◌, List, [], ◌∷◌, Bool, true, false, inl, inr, if◌then◌else◌,
}
use mathlib.Core.Path.{subst}
use lattica_studio.Prelude.Dict.{list_eq, string_eq, codes_eq, beq_refl, get-insert, get-remove}
use lattica_studio.Result.{ok, Error, raise_if, value_error}
use lattica_studio.Effects.{Event, raises, pure}
use lattica_studio.Effects.Runs.{
  Runs, Runs-pure, Runs-result, Runs-gets, Runs-effect, Runs-bind, Runs-weaken, Runs-on_error,
  Runs-then,
}
use lattica_studio.Credentials.{TokenIdentity, Bytes, QueryKey, is_empty}
use lattica_studio.Storage.{
  raw, document, Name, KeyFolder, same_world, make_folder, put_current, atomic_private_write,
  rmtree, remove_others,
}
use lattica_studio.Storage.Load.{resolve_current_bundle}
use lattica_studio.Storage.Save.{
  staging, metadata_of, write_metadata, remove_old_revisions, folder_names, write_bundle,
  save_key_bundle,
}
use lattica_studio.Storage.Views.{IsPending, complete-IsPending, complete}
use lattica_studio.Storage.Removal.{
  IsFine, Runs-stay, Runs-atomic, Runs-rmtree, unlink_current, unlink_others,
}
use lattica_studio.Storage.Stages.{
  IsDamaged, IsNew, new_record, Seen, Failed, Keeps-IsFine, Staged, Runs-write, Moved, Replaced,
  resolve-Replaced, Runs-replace,
}
use lattica_studio.Storage.Undo.{Seen-IsFine, Runs-drop}

module _ (may : Event → Type 0) (Lost : KeyFolder → Type 0) (w : KeyFolder) (token : TokenIdentity)
    (key : QueryKey) (evaluation_key : Bytes) (revision : Name)
    (new : IsNew w token key evaluation_key revision)
    (lost : (e : Error) (w' : KeyFolder)
      → may (raises e)
      → IsDamaged token revision w'
      → Lost w') where
  abbrev See : KeyFolder → Type 0
  See = Seen may Lost w token key evaluation_key revision new

  abbrev Fail : Error → KeyFolder → Type 0
  Fail = Failed may Lost w token key evaluation_key revision new

  abbrev Raise : Error → KeyFolder → Type 0
  Raise e w' = may (raises e) × See w'

  abbrev New : KeyFolder → Type 0
  New = Replaced may Lost w token key evaluation_key revision new

  New-IsDamaged : (w' : KeyFolder) → New w' → IsDamaged token revision w'
  New-IsDamaged w' replaced = record {
    named = replaced.now_current;
    pending = λ files e.
        let same : complete token key evaluation_key false ≡ files = cc (replaced.now_files) in
        subst (IsPending token) same (complete-IsPending token key evaluation_key);
  }

  Runs-current :
      (w' : KeyFolder)
      → Moved may Lost w token key evaluation_key revision new w'
      → Runs may See Fail (λ _. New) (atomic_private_write same_world (put_current revision)) w'
  Runs-current w' moved =
      let fine =
        Keeps-IsFine may Lost w token key evaluation_key revision new w' moved.moved_keeps in
      let replaced : New (put_current revision w') = record {
        now_current = refl;
        now_files = moved.moved_files;
      } in
      Runs-weaken
        (Runs-atomic may See Fail same_world (put_current revision) w' fine fine (record {
          may_die = inr (
              inl (
                resolve-Replaced may Lost w token key evaluation_key revision new
                  (put_current revision w') replaced));
          may_raise = λ e m. (m, inr (New-IsDamaged (put_current revision w') replaced));
        }))
        (λ e w'' f. f) (λ a w'' same. subst New (sym same) replaced)

  Runs-write_bundle :
      (w' : KeyFolder)
      → Staged may Lost w token key evaluation_key revision new [] w'
      → Runs may See Fail
          (λ _. New)
          (write_bundle (new_record token key revision) evaluation_key)
          w'
  unfolding write_bundle write_metadata
  Runs-write_bundle w' staged =
      let step = Runs-write may Lost w token key evaluation_key revision new in
      Runs-bind (step [] "context.bin" (raw key.context) w' staged) λ _ w1 s1.
        Runs-bind (step _ "secret-key.bin" (raw key.secret_key) w1 s1) λ _ w2 s2.
          Runs-bind (step _ "client-model.bin" (raw key.client_model) w2 s2) λ _ w3 s3.
            Runs-bind (step _ "evaluation-key.bin" (raw evaluation_key) w3 s3) λ _ w4 s4.
              Runs-bind (step _ "metadata.json" (document (metadata_of token false)) w4 s4)
                λ _ w5 s5.
                  Runs-bind (Runs-replace may Lost w token key evaluation_key revision new w5 s5)
                    λ _ w6 s6. Runs-current w6 s6

  New-IsFine : (w' : KeyFolder) → New w' → IsFine may See Raise w'
  New-IsFine w' replaced =
      Seen-IsFine may Lost w token key evaluation_key revision new lost w'
        (inr (inl (resolve-Replaced may Lost w token key evaluation_key revision new w' replaced)))

  Runs-remove_others :
      (names : List Name) (w' : KeyFolder)
      → New w'
      → Runs may See Raise (λ _. New) (remove_others revision names) w'
  unfolding remove_others
  Runs-remove_others [] w' replaced = Runs-pure tt w' replaced
  Runs-remove_others (name ∷ names) w' replaced =
      Runs-bind (one (codes_eq name revision) refl)
        (λ _ v replaced'. Runs-remove_others names v replaced')
    where
      one :
          (same : Bool)
          → codes_eq name revision ≡ same
          → Runs may See Raise (λ _. New) (if same then pure tt else rmtree name) w'
      one true e = Runs-pure tt w' replaced
      one false e =
          let apart = e in
          Runs-rmtree may See Raise New New-IsFine name
            (λ file v r. record {
              now_current = unlink_current name file v ∙ r.now_current;
              now_files = unlink_others name revision file v apart ∙ r.now_files;
            })
            (λ v r. record {
              now_current = r.now_current;
              now_files = get-remove revision name v.revisions ∙ rw apart r.now_files;
            })
            w' replaced

  Runs-remove_old :
      (w' : KeyFolder) → New w' → Runs may See Raise (λ _. New) (remove_old_revisions revision) w'
  unfolding remove_old_revisions
  Runs-remove_old w' replaced = Runs-then (Runs-stay may See Raise w' (New-IsFine w' replaced)) λ _.
      Runs-then {t = w'} (Runs-gets (λ v. ok (folder_names v.revisions)) w' refl refl)
        λ names. Runs-remove_others names w' replaced

  Staged-first :
      Staged may Lost w token key evaluation_key revision new [] (make_folder (staging revision) w)
  Staged-first =
      let name = staging revision in
      rw (new.no_staging, make_folder)
        (record {
          staged_current = refl;
          staged_files = get-insert name name [] w.revisions ∙ rw (beq_refl name) refl;
          staged_others = λ other h. get-insert other name [] w.revisions ∙ rw h refl;
        })

  -- The whole save.
  pub Runs-save :
      Runs may See Raise
        (λ stored w'.
          (stored ≡ new_record token key revision)
          × (resolve_current_bundle w' ≡ ok (revision, complete token key evaluation_key false)))
        (save_key_bundle token key evaluation_key revision)
        w
  unfolding save_key_bundle
  Runs-save =
      let fine = Seen-IsFine may Lost w token key evaluation_key revision new lost w (inl refl) in
      Runs-then {t = w}
        (Runs-result (raise_if (is_empty evaluation_key) value_error) w
          (rw new.made.evaluation_key_made) refl)
        λ _. Runs-then (Runs-stay may See Raise w fine) λ _.
          Runs-bind
            (Runs-effect (make_folder (staging revision)) w fine.may_die fine.may_raise
              Staged-first)
            λ _ v staged.
              Runs-bind
                (Runs-on_error (Runs-write_bundle v staged)
                  (Runs-drop may Lost w token key evaluation_key revision new lost))
                λ _ v' replaced. Runs-bind (Runs-remove_old v' replaced) λ _ v'' replaced'.
                  Runs-pure (new_record token key revision) v'' (
                    refl,
                    resolve-Replaced may Lost w token key evaluation_key revision new v'' replaced',
                  )
