-- ===== src/Studio/Prepare.antt =====
-- Which model a deployment goes into, and when it returns.
use lattica_studio.Prelude.{
  ◌≡◌, refl, sym, ap, ◌∙◌, String, List, [], ◌∷◌, Option, none, some, true, false, not, arith,
  Bool-cases, inl, inr,
}
use lattica_studio.Prelude.Int.{ℤ}
use lattica_studio.Result.{Result, ok, err, value_error, invalid_resource_response_error}
use lattica_studio.Studio.{Json, Model, is_text, equals, Backend, bind, pure}
use lattica_studio.Studio.Start.{bind-holds}
use lattica_studio.Studio.Workers.{stop}
use lattica_studio.Studio.Deployment.{
  devices_or_one, create, list, find_by_name, first_named, update_if, redeploy, prepare_existing,
  prepare_found, prepare_model,
}

-- The first model of the name.
abbrev pub IsFirst : String → List Model → Option Model → Type 0
IsFirst name [] found = found ≡ none
IsFirst name (model ∷ models) found =
    (is_text name model.name ≡ true → found ≡ some model)
    × (is_text name model.name ≡ false → IsFirst name models found)

first_named-IsFirst :
    (name : String) (models : List Model) → IsFirst name models (first_named name models)
unfolding first_named
first_named-IsFirst name [] = refl
first_named-IsFirst name (model ∷ models) = (λ e. rw e, λ e. rw e (first_named-IsFirst name models))

abbrev id_of : Option Model → Option Json
id_of none = none
id_of (some m) = m.id

abbrev devices_of : Option Model → Option Json
devices_of none = none
devices_of (some m) = m.num_devices

module _ {B : Type 0} (backend : Backend B) (name instance_type : String) (devices : ℤ) where
  -- What the model that was found makes of the preparation, from the state `b` of the world.
  pub record Prepared (found : Option Model) (b : B) (r : B × Result Json) : Type 0 where
    pub new : found ≡ none → r ≡ create backend name instance_type devices b
    pub nameless :
        (model : Model)
        → found ≡ some model
        → model.id ≡ none
        → r ≡ (b, err invalid_resource_response_error)
    pub mismatch :
        (model : Model) (id : Json)
        → found ≡ some model
        → model.id ≡ some id
        → equals (devices_or_one model.num_devices) devices ≡ false
        → r ≡ (b, err value_error)
    pub same_id :
        (model : Model) (id id' : Json)
        → found ≡ some model
        → model.id ≡ some id
        → r.1 ≡ ok id'
        → (id' ≡ id) × (equals (devices_or_one model.num_devices) devices ≡ true)

  redeploy-mismatch :
      (model : Model) (id : Json) (b : B)
      → equals (devices_or_one model.num_devices) devices ≡ false
      → redeploy backend model id instance_type devices b ≡ (b, err value_error)
  unfolding redeploy
  redeploy-mismatch model id b e = rw e

  redeploy-id :
      (model : Model) (id id' : Json) (b : B)
      → (redeploy backend model id instance_type devices b).1 ≡ ok id'
      → (id' ≡ id) × (equals (devices_or_one model.num_devices) devices ≡ true)
  unfolding redeploy
  redeploy-id model id id' b h =
      elim (Bool-cases (equals (devices_or_one model.num_devices) devices)) [
        | inr other ↦ let h' = rw other at h in cc
        | inl same ↦ (after_stop (rw same at h), same)
      ]
    where
      after_update : (r : B × Result (Unit {0})) → (bind r (λ _. pure id)).1 ≡ ok id' → id' ≡ id
      after_update (b', ok x) e = ground arith
      after_update (b', err x) e = cc

      after_stop :
          (bind (stop backend (some id) none b) (λ _. λ b'.
              bind
                (update_if backend
                  (not (is_text instance_type model.instance_type))
                  id
                  instance_type
                  b')
                (λ _. pure id))).1
            ≡ ok id'
          → id' ≡ id
      after_stop =
          bind-holds (λ r. r ≡ ok id' → id' ≡ id) (λ _. Unit) (stop backend (some id) none b) _
            (λ x e. cc) tt
            (λ _ b' _. after_update (
              update_if backend (not (is_text instance_type model.instance_type)) id instance_type
                b'))

  existing-Prepared :
      (m : Model) (o : Option Json) (b : B)
      → m.id ≡ o
      → Prepared (some m) b (prepare_existing backend m o instance_type devices b)
  existing-Prepared m none b e = record {
    new = λ found. cc;
    nameless = λ model found unnamed. refl;
    mismatch = λ model id found named other. let same = ap id_of found in cc;
    same_id = λ model id id' found named h. let same = ap id_of found in cc;
  }
  existing-Prepared m (some id) b e = record {
    new = λ found. cc;
    nameless = λ model found unnamed. let same = ap id_of found in cc;
    mismatch = λ model id' found named other.
        redeploy-mismatch m id b
          (ap (λ d. equals (devices_or_one d) devices) (ap devices_of found) ∙ other);
    same_id = λ model id' id'' found named h.
        let (x, y) = redeploy-id m id id'' b h in
        let same = ap id_of found in
        (cc, ap (λ d. equals (devices_or_one d) devices) (sym (ap devices_of found)) ∙ y);
  }

  found-Prepared :
      (found : Option Model) (b : B)
      → Prepared found b (prepare_found backend found name instance_type devices b)
  unfolding prepare_found
  found-Prepared none b = record {
    new = λ e. refl;
    nameless = λ model e. cc;
    mismatch = λ model id e. cc;
    same_id = λ model id id' e. cc;
  }
  found-Prepared (some m) b = existing-Prepared m m.id b refl

  -- `_prepare_model`, where the list of models comes back: it goes by the first model of the name. With
  -- no such model it creates one, and comes to what the creation comes to. With a model that has
  -- no id, or another number of devices than asked for (1 where the model names none), it raises and
  -- calls the backend no more: no worker is stopped. Otherwise the id that it returns is that
  -- model's.
  pub prepare_model_lem :
      (b b' : B) (models : List Model)
      → list backend b ≡ (b', ok models)
      → (found : Option Model) × IsFirst name models found
        × Prepared found b' (prepare_model backend name instance_type devices b)
  unfolding prepare_model find_by_name
  prepare_model_lem b b' models h = (
    first_named name models,
    first_named-IsFirst name models,
    rw h (found-Prepared (first_named name models) b'),
  )
