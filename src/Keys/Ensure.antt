-- ===== src/Keys/Ensure.antt =====
-- `ensure`, `generate` and `load` keep the world registered, whatever their effects meet.
use mathlib.Core.Path.{subst}
use lattica_studio.Prelude.{
  str_eq, ◌≡◌, refl, sym, Option, none, Bool, true, false, not, inl, inr, Bool-cases,
}
use lattica_studio.Prelude.Dict.{string_eq, list_eq}
use lattica_studio.Result.{Result, ok, err, >>=-eq-ok}
use lattica_studio.Effects.{Action, finally}
use lattica_studio.Effects.Runs.{
  Runs-pure, Runs-gets, Runs-gets_any, Runs-effect, Runs-bind, Runs-weaken, Runs-on_error,
  Runs-from, Runs-then,
}
use lattica_studio.Credentials.{TokenIdentity, make_identity, Bytes, make_key}
use lattica_studio.Storage.{Folder, Name}
use lattica_studio.Storage.Load.{
  StoredKey, resolve_current_bundle, load_folder, load_key_bundle, key_bundle_exists,
}
use lattica_studio.Storage.Views.{load_folder-revision, complete, make_key-made}
use lattica_studio.Keys.{
  World, same, Services, of_token, registered_if, generate_key_bundle, generate, ensure_from,
  ensure, load, locked, load_bundle, initialization_or,
}
use lattica_studio.Keys.Registered.{IsRegistered, Stays, IsStored, effect_stays}
use lattica_studio.Keys.Upload.{
  IsReady, IsReturned, Runs-registered_if, Runs-as_it_is, returned-IsRegistered,
}
use lattica_studio.Keys.NewBundle.{IsFreshName, Runs-save_any}

IsStored-of :
    (w : World) (stored : StoredKey)
    → load_key_bundle w.folder ≡ ok stored
    → (files : Folder) × IsStored stored files w
unfolding load_key_bundle
IsStored-of w stored h =
    let ((name, files), e, h1) = >>=-eq-ok (resolve_current_bundle w.folder) _ h in
    let same_name = load_folder-revision files name stored h1 in
    let back = sym same_name in
    (
      files,
      record {
        resolves = subst (λ n. resolve_current_bundle w.folder ≡ ok (n, files)) back e;
        loads = subst (λ n. load_folder n files ≡ ok stored) back h1;
      },
    )

of_token-ok :
    (identity : TokenIdentity) (r : Result StoredKey) (stored : StoredKey)
    → of_token identity r ≡ ok stored
    → r ≡ ok stored
of_token-ok identity (err e) stored h = cc
of_token-ok identity (ok found) stored h = elim (Bool-cases (str_eq found.token.id identity.id)) [
  | inl same_id ↦ rw same_id at h
  | inr other ↦ cc (rw other at h)
]

Runs-locked :
    {A : Type 0} {post : A → World → Type 0} (m : Action World A) (w : World)
    → IsRegistered w
    → Stays (λ a w'. IsRegistered w' × post a w') m w
    → Stays (λ a w'. IsRegistered w' × post a w') (locked m) w
unfolding locked finally
Runs-locked m w r h = Runs-then (effect_stays w r) λ _.
    Runs-bind (Runs-on_error h (λ e w' r'. Runs-effect same w' r' (λ e' m'. r') r'))
      λ a w' (r', p). Runs-then (effect_stays w' r') (λ _. Runs-pure a w' (r', p))

module _ (services : Services) where
  Runs-generate_key_bundle :
      (identity : TokenIdentity) (revision : Name) (initialization : Option (Bytes × Bytes))
      (is_registered : Bool) (w : World)
      → IsRegistered w
      → IsFreshName w.folder revision
      → make_identity identity.id identity.name ≡ ok identity
      → Stays
          (IsReturned is_registered)
          (generate_key_bundle services identity revision initialization is_registered)
          w
  unfolding generate_key_bundle
  Runs-generate_key_bundle identity revision initialization is_registered w r fresh made =
      Runs-bind {post = λ d w'. w' ≡ w}
        (Runs-gets_any (λ _. initialization_or services initialization) w (λ a e. refl) (λ e h. r))
        λ d w' at.
          let keys = services.generate_key d.1 d.0 in
          Runs-from at (
            Runs-bind {post = λ key w''. (w'' ≡ w) × (make_key d.0 keys.0 d.1 ≡ ok key)}
              (Runs-gets_any (λ _. make_key d.0 keys.0 d.1) w (λ a e. (refl, e)) (λ e h. r))
              λ key w'' (at', key_made).
                let key_same = make_key-made d.0 keys.0 d.1 key key_made in
                Runs-from at' (
                  Runs-bind (Runs-save_any identity key keys.1 revision w r fresh made key_same)
                    λ stored w1 (r1, is).
                      Runs-registered_if services is_registered stored
                        (complete identity key keys.1 false) w1 r1 is))

  Runs-ensure_from :
      (is_there : Bool) (identity : TokenIdentity) (revision : Name) (w : World)
      → IsRegistered w
      → IsFreshName w.folder revision
      → make_identity identity.id identity.name ≡ ok identity
      → Stays IsReady (ensure_from services is_there identity revision) w
  unfolding ensure_from
  Runs-ensure_from false identity revision w r fresh made =
      Runs-generate_key_bundle identity revision none true w r fresh made
  Runs-ensure_from true identity revision w r fresh made =
      Runs-bind {post = λ stored w'. (w' ≡ w) × ((files : Folder) × IsStored stored files w)}
        (Runs-gets_any (λ v. of_token identity (load_key_bundle v.folder)) w
          (λ stored e.
            (refl, IsStored-of w stored (of_token-ok identity (load_key_bundle w.folder) stored e)))
          (λ e h. r))
        λ stored w' (at, (files, is)).
          Runs-from at (take_bundle stored files is (stored.evaluation_key_uploaded) refl)
    where
      take_bundle :
          (stored : StoredKey) (files : Folder)
          → IsStored stored files w
          → (flag : Bool) → stored.evaluation_key_uploaded ≡ flag
          → Stays IsReady (registered_if services (not flag) stored) w
      take_bundle stored files is false e = Runs-registered_if services true stored files w r is
      take_bundle stored files is true e = Runs-as_it_is services stored files w r is e

  pub Runs-ensure :
      (identity : TokenIdentity) (revision : Name) (w : World)
      → IsRegistered w
      → IsFreshName w.folder revision
      → make_identity identity.id identity.name ≡ ok identity
      → Stays IsReady (ensure services identity revision) w
  unfolding ensure
  Runs-ensure identity revision w r fresh made = Runs-locked _ w r (
      Runs-then {t = w} (Runs-gets (λ v. ok (key_bundle_exists v.folder)) w refl refl)
        λ is_there. Runs-ensure_from is_there identity revision w r fresh made)

  pub Runs-generate :
      (identity : TokenIdentity) (revision : Name) (initialization : Option (Bytes × Bytes))
      (is_registered : Bool) (w : World)
      → IsRegistered w
      → IsFreshName w.folder revision
      → make_identity identity.id identity.name ≡ ok identity
      → Stays
          (λ _. IsRegistered)
          (generate services identity revision initialization is_registered)
          w
  unfolding generate
  Runs-generate identity revision initialization is_registered w r fresh made =
      Runs-weaken
        (Runs-locked {post = λ _ w'. Unit} _ w r (
          Runs-weaken
            (Runs-generate_key_bundle identity revision initialization is_registered w r fresh made)
            (λ e w' r'. r') (λ a w' p. (returned-IsRegistered is_registered a w' p, tt))))
        (λ e w' r'. r') (λ a w' p. p.0)

pub Runs-load :
    (identity : TokenIdentity) (w : World)
    → IsRegistered w
    → Stays (λ _. IsRegistered) (load identity) w
unfolding load load_bundle
Runs-load identity w r =
    Runs-weaken
      (Runs-locked {post = λ _ w'. Unit} _ w r (
        Runs-bind {post = λ _ w'. w' ≡ w}
          (Runs-gets_any (λ v. of_token identity (load_key_bundle v.folder)) w (λ a e. refl)
            (λ e h. r))
          λ stored w' at. Runs-from at (Runs-pure stored.key w (r, tt))))
      (λ e w' r'. r') (λ a w' p. p.0)
