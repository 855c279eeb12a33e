-- ===== src/Storage/Atomic.antt =====
-- `save_key_bundle` against crashes: a load sees the old bundle or the new one.
use lattica_studio.Prelude.{◌≡◌, List, [], ◌∷◌, some, false, ◌⊎◌, inl, inr}
use lattica_studio.Prelude.Dict.{list_eq, string_eq}
use lattica_studio.Result.{Result, ok}
use lattica_studio.Effects.{Event, works, raises, dies, Outcome, done, raised, died}
use lattica_studio.Effects.Runs.{AllEvents, Holds}
use lattica_studio.Credentials.{TokenIdentity, Bytes, QueryKey}
use lattica_studio.Storage.{Name, KeyFolder}
use lattica_studio.Storage.Load.{StoredKey, resolve_current_bundle, load_key_bundle}
use lattica_studio.Storage.Save.{save_key_bundle}
use lattica_studio.Storage.Views.{complete, load_folder-complete}
use lattica_studio.Storage.Stages.{IsDamaged, IsNew, new_record, Seen}
use lattica_studio.Storage.Crash.{Runs-save}

-- Nothing raises: an effect works or the process dies at it.
abbrev pub OnlyDies : Event → Type 0
OnlyDies works = Unit
OnlyDies dies = Unit
OnlyDies (raises e) = ⊥

-- A save that ends has the new bundle in place; one that dies, the old bundle or the new one.
abbrev pub IsAtomic : Result StoredKey → StoredKey → Outcome KeyFolder StoredKey → Type 0
IsAtomic before stored (done result w' plan) = (result ≡ stored) × (load_key_bundle w' ≡ ok stored)
IsAtomic before stored (died w') = (load_key_bundle w' ≡ before) ⊎ (load_key_bundle w' ≡ ok stored)
IsAtomic before stored (raised e w' plan) = ⊥

abbrev pub IsOldOrNew : Result StoredKey → StoredKey → KeyFolder → Type 0
IsOldOrNew before stored w =
    (load_key_bundle w ≡ before)
    ⊎ (load_key_bundle w ≡ ok stored)
    ⊎ (w.current ≡ some stored.revision)

abbrev pub IsInterrupted : Result StoredKey → StoredKey → Outcome KeyFolder StoredKey → Type 0
IsInterrupted before stored (done result w plan) =
    (result ≡ stored) × (load_key_bundle w ≡ ok stored)
IsInterrupted before stored (died w) = IsOldOrNew before stored w
IsInterrupted before stored (raised e w plan) = IsOldOrNew before stored w

module _ (w : KeyFolder) (token : TokenIdentity) (key : QueryKey) (evaluation_key : Bytes)
    (revision : Name) (new : IsNew w token key evaluation_key revision) where
  resolve-load :
      (w' : KeyFolder)
      → resolve_current_bundle w' ≡ ok (revision, complete token key evaluation_key false)
      → load_key_bundle w' ≡ ok (new_record token key revision)
  unfolding load_key_bundle
  resolve-load w' e =
      let loaded = load_folder-complete token key evaluation_key false revision new.made in
      rw (e, loaded)

  same-load :
      (w' : KeyFolder)
      → resolve_current_bundle w' ≡ resolve_current_bundle w
      → load_key_bundle w' ≡ load_key_bundle w
  unfolding load_key_bundle
  same-load w' e = rw e

  -- Under a new revision's name and with a token and a key that their constructors have made, and if no
  -- effect raises: a `save_key_bundle` that returns has made the next load return the new record, and
  -- one that dies at any effect leaves a directory from which a load returns what it did before the
  -- save, or the new record.
  pub save_key_bundle-IsAtomic :
      (plan : List Event)
      → AllEvents OnlyDies plan
      → IsAtomic
          (load_key_bundle w)
          (new_record token key revision)
          (save_key_bundle token key evaluation_key revision w plan)
  save_key_bundle-IsAtomic plan all =
      seen (save_key_bundle token key evaluation_key revision w plan) (
        (Runs-save OnlyDies (λ _. ⊥) w token key evaluation_key revision new (λ e w' m c. m)).at
          plan all)
    where
      seen :
          (o : Outcome KeyFolder StoredKey)
          → Holds OnlyDies
              (Seen OnlyDies (λ _. ⊥) w token key evaluation_key revision new)
              (λ e w'.
                OnlyDies (raises e)
                × Seen OnlyDies (λ _. ⊥) w token key evaluation_key revision new w')
              (λ stored w'.
                (stored ≡ new_record token key revision)
                × (resolve_current_bundle w'
                    ≡ ok (revision, complete token key evaluation_key false)))
              o
          → IsAtomic (load_key_bundle w) (new_record token key revision) o
      seen (done stored w' rest) ((e, e2), more) = (e, resolve-load w' e2)
      seen (died w') (inl e) = inl (same-load w' e)
      seen (died w') (inr (inl e)) = inr (resolve-load w' e)
      seen (died w') (inr (inr l)) = absurd l
      seen (raised e w' rest) p = p.0.0

  -- The same whatever the effects raise, but for one outcome more of a save that dies or raises: its
  -- new revision is already the one that "current" names, and may be gone again.
  pub save_key_bundle-IsInterrupted :
      (plan : List Event)
      → IsInterrupted
          (load_key_bundle w)
          (new_record token key revision)
          (save_key_bundle token key evaluation_key revision w plan)
  save_key_bundle-IsInterrupted plan =
      seen (save_key_bundle token key evaluation_key revision w plan) (
        (Runs-save (λ _. Unit) (IsDamaged token revision) w token key evaluation_key revision new
            (λ e w' m d. d)).at
          plan (any plan))
    where
      any : (events : List Event) → AllEvents (λ _. Unit) events
      any [] = tt
      any (event ∷ events) = (tt, any events)

      view :
          (w' : KeyFolder)
          → Seen (λ _. Unit) (IsDamaged token revision) w token key evaluation_key revision new w'
          → IsOldOrNew (load_key_bundle w) (new_record token key revision) w'
      view w' (inl e) = inl (same-load w' e)
      view w' (inr (inl e)) = inr (inl (resolve-load w' e))
      view w' (inr (inr l)) = inr (inr l.named)

      seen :
          (o : Outcome KeyFolder StoredKey)
          → Holds
              (λ _. Unit)
              (Seen (λ _. Unit) (IsDamaged token revision) w token key evaluation_key revision new)
              (λ e w'.
                Unit {0}
                × Seen
                    (λ _. Unit)
                    (IsDamaged token revision)
                    w
                    token
                    key
                    evaluation_key
                    revision
                    new
                    w')
              (λ stored w'.
                (stored ≡ new_record token key revision)
                × (resolve_current_bundle w'
                    ≡ ok (revision, complete token key evaluation_key false)))
              o
          → IsInterrupted (load_key_bundle w) (new_record token key revision) o
      seen (done stored w' rest) ((e, e2), more) = (e, resolve-load w' e2)
      seen (died w') p = view w' p
      seen (raised e w' rest) ((u, p), more) = view w' p
