-- ===== src/Tests/Registering.antt =====
-- A key that is generated and registered from an empty directory.
use lattica_studio.Prelude.{◌≡◌, refl, List, [], ◌∷◌, ◌++◌, none, true, replicate, arith}
use lattica_studio.Prelude.Dict.{get}
use lattica_studio.Result.{ok}
use lattica_studio.Effects.{Event, works, dies}
use lattica_studio.Credentials.{TokenIdentity, is_space, is_blank, make_identity}
use lattica_studio.Storage.{Name}
use lattica_studio.Keys.{Services, ensure}
use lattica_studio.Keys.Registered.{IsRegistered}
use lattica_studio.Keys.NewBundle.{IsFreshName}
use lattica_studio.Keys.History.{
  new_client, ensured, empty_world, world_of, IsEnsured, Reach-IsRegistered, ensure-IsEnsured,
}

abbrev services : Services
services = record {
  initialization = ok (1 ∷ [], 2 ∷ []);
  generate_key = λ client_model context. (3 ∷ [], 4 ∷ []);
  is_worker_up = ok true;
}

abbrev identity : TokenIdentity
identity = record { id = "t1"; name = none }

identity_run : make_identity "t1" none ≡ ok identity
unfolding make_identity is_blank is_space
identity_run = refl

abbrev name : Name
name = replicate 32 b'c'

fresh : IsFreshName empty_world.folder name
unfolding get
fresh = record {
  other = λ written e. cc e;
  no_revision = refl;
  no_staging = refl;
  long = omega arith;
  hex = refl;
}

-- Dead after the upload, before the mark.
abbrev plan : List Event
plan = replicate 55 works ++ (dies ∷ [])

Reach-IsRegistered_example :
    IsRegistered (world_of (ensure services identity name empty_world plan))
Reach-IsRegistered_example =
    Reach-IsRegistered services identity identity_run (ensured new_client name fresh plan)

ensure-IsEnsured_example : IsEnsured (ensure services identity name empty_world [])
ensure-IsEnsured_example = ensure-IsEnsured services identity identity_run new_client name fresh []
