-- ===== src/Keys/History.antt =====
-- Any sequence of the methods of KeysAPI, with crashes and errors anywhere, from an empty directory.
use lattica_studio.Prelude.{◌≡◌, List, [], ◌∷◌, Option, none, Bool, true}
use lattica_studio.Result.{ok}
use lattica_studio.Effects.{Event, Outcome, done, raised, died}
use lattica_studio.Effects.Runs.{AllEvents, Holds}
use lattica_studio.Credentials.{TokenIdentity, make_identity, Bytes, QueryKey}
use lattica_studio.Storage.{Name, Folder}
use lattica_studio.Storage.Load.{StoredKey, resolve_current_bundle, load_key_bundle}
use lattica_studio.Keys.{World, Services, ensure, generate, load}
use lattica_studio.Keys.Registered.{IsRegistered, AnyEvent, IsStored}
use lattica_studio.Keys.Upload.{IsReady}
use lattica_studio.Keys.NewBundle.{IsFreshName}
use lattica_studio.Keys.Ensure.{Runs-ensure, Runs-generate, Runs-load}

-- The world that an action leaves, however it ends.
abbrev pub world_of : {A : Type 0} → Outcome World A → World
world_of (done a w plan) = w
world_of (raised e w plan) = w
world_of (died w) = w

abbrev pub empty_world : World
empty_world = record { folder = record { current = none; revisions = [] }; uploads = [] }

-- One call of a method at a time, each with what its effects meet; a new revision has a new name.
pub data Reach (services : Services) (identity : TokenIdentity) : World → Type 0 where
  new_client : Reach services identity empty_world
  ensured :
      {w : World}
      → Reach services identity w
      → (revision : Name) → IsFreshName w.folder revision
      → (plan : List Event)
      → Reach services identity (world_of (ensure services identity revision w plan))
  generated :
      {w : World}
      → Reach services identity w
      → (revision : Name) → IsFreshName w.folder revision
      → (initialization : Option (Bytes × Bytes)) (is_registered : Bool) (plan : List Event)
      → Reach services identity
          (world_of (generate services identity revision initialization is_registered w plan))
  loaded :
      {w : World}
      → Reach services identity w
      → (plan : List Event) → Reach services identity (world_of (load identity w plan))

any_events : (plan : List Event) → AllEvents AnyEvent plan
any_events [] = tt
any_events (event ∷ plan) = (tt, any_events plan)

left :
    {A : Type 0} (post : A → World → Type 0) (o : Outcome World A)
    → ((a : A) (w : World) → post a w → IsRegistered w)
    → Holds AnyEvent IsRegistered (λ e. IsRegistered) post o
    → IsRegistered (world_of o)
left post (done a w plan) h (p, all) = h a w p
left post (raised e w plan) h (r, all) = r
left post (died w) h r = r

empty-IsRegistered : IsRegistered empty_world
unfolding resolve_current_bundle
empty-IsRegistered = record { is_given = λ name files stored bytes e loads u content. cc e }

-- What `ensure` leaves: a key that it returns is the one a load gives, marked as uploaded.
abbrev pub IsEnsured : Outcome World QueryKey → Type 0
IsEnsured (done key w plan) =
    IsRegistered w
    × ((stored : StoredKey) × (load_key_bundle w.folder ≡ ok stored)
        × (stored.key ≡ key)
        × (stored.evaluation_key_uploaded ≡ true))
IsEnsured (raised e w plan) = IsRegistered w
IsEnsured (died w) = IsRegistered w

stored_loads :
    (stored : StoredKey) (files : Folder) (w : World)
    → IsStored stored files w
    → load_key_bundle w.folder ≡ ok stored
unfolding load_key_bundle
stored_loads stored files w is = let e = is.resolves in rw e is.loads

module _ (services : Services) (identity : TokenIdentity)
    (made : make_identity identity.id identity.name ≡ ok identity) where
  -- With a token that its constructor has made: in every world that the methods reach from an empty
  -- directory, whatever raises or dies in between, an evaluation key that the current bundle marks as
  -- uploaded is among those that the backend has been given.
  pub Reach-IsRegistered : {w : World} → Reach services identity w → IsRegistered w
  Reach-IsRegistered new_client = empty-IsRegistered
  Reach-IsRegistered (ensured {w} before revision fresh plan) =
      left IsReady (ensure services identity revision w plan) (λ a v p. p.0)
        ((Runs-ensure services identity revision w (Reach-IsRegistered before) fresh made).at plan
          (any_events plan))
  Reach-IsRegistered (generated {w} before revision fresh initialization is_registered plan) =
      left (λ _. IsRegistered)
        (generate services identity revision initialization is_registered w plan) (λ a v p. p)
        ((Runs-generate services identity revision initialization is_registered w
            (Reach-IsRegistered before) fresh made).at
          plan (any_events plan))
  Reach-IsRegistered (loaded {w} before plan) =
      left (λ _. IsRegistered) (load identity w plan) (λ a v p. p)
        ((Runs-load identity w (Reach-IsRegistered before)).at plan (any_events plan))

  -- From every such world, whatever its effects meet, an `ensure` that returns a key leaves a bundle
  -- from which a load gives that key, marked as uploaded; and however it ends, a key that is marked as
  -- uploaded has been given to the backend.
  pub ensure-IsEnsured :
      {w : World}
      → Reach services identity w
      → (revision : Name) → IsFreshName w.folder revision
      → (plan : List Event) → IsEnsured (ensure services identity revision w plan)
  ensure-IsEnsured {w} before revision fresh plan =
      view (ensure services identity revision w plan) (
        (Runs-ensure services identity revision w (Reach-IsRegistered before) fresh made).at plan
          (any_events plan))
    where
      view :
          (o : Outcome World QueryKey)
          → Holds AnyEvent IsRegistered (λ e. IsRegistered) IsReady o
          → IsEnsured o
      view (done key v rest) ((r, (stored, files, is, same_key, is_uploaded)), all) =
          (r, (stored, stored_loads stored files v is, same_key, is_uploaded))
      view (raised e v rest) (r, all) = r
      view (died v) r = r
