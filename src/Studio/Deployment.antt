-- ===== src/Studio/Deployment.antt =====
-- lattica_studio_src/lattica_studio/deployment.py, on the methods of resources/models.py that it calls.
-- The log lines are left out; the upload of the file is one action of the outside world.
use lattica_studio.Prelude.{
  ℕ, zero, suc, ◌-◌, String, List, [], ◌∷◌, Option, none, some, Bool, true, false, not, leb,
  if◌then◌else◌,
}
use lattica_studio.Prelude.Int.{ℤ, pos}
use lattica_studio.Result.{
  err, value_error, invalid_resource_response_error, compilation_error, compilation_timeout_error,
  attribute_error,
}
use lattica_studio.Studio.{
  Json, text, number, Model, is_text, is_true, equals, Backend, Act, bind, ◌>>=◌, ◌>>◌, pure, raise,
  lift,
}
use lattica_studio.Studio.Parse.{object_of, model_of, models_of}
use lattica_studio.Studio.Workers.{stop}

-- `next((model for model in models if model.name == name), None)`
unfoldable pub first_named : String → List Model → Option Model
first_named name [] = none
first_named name (model ∷ models) =
    let rest = first_named name models in if is_text name model.name then some model else rest

-- `existing_model.num_devices or 1`
abbrev pub devices_or_one : Option Json → Json
devices_or_one none = number (pos 1)
devices_or_one (some n) = if is_true (some n) then n else number (pos 1)

module _ {B : Type 0} (backend : Backend B) where
  -- ModelsAPI.create
  unfoldable pub create : String → String → ℤ → Act B Json
  create name instance_type num_devices = backend.call "api/model/create_model" (
      ("modelName", text name)
      ∷ ("instanceTypeId", text instance_type)
      ∷ ("numDevices", number num_devices)
      ∷ [])

  unfoldable pub get_by_id : Json → Act B Model
  get_by_id model_id = do
    response ← backend.call "api/model/get_model_info" (("modelId", model_id) ∷ [])
    lift (model_of response)

  -- ModelsAPI.list without a visibility
  unfoldable pub list : Act B (List Model)
  list = do response ← backend.call "api/model/list_models" []; lift (models_of response)

  unfoldable pub find_by_name : String → Act B (Option Model)
  unfolding first_named
  find_by_name name = do models ← list; pure (first_named name models)

  -- ModelsAPI.update of the instance type; `response.get` raises AttributeError on what is no object.
  unfoldable pub update_instance_type : Json → String → Act B (Unit {0})
  update_instance_type model_id instance_type = do
    response ←
        backend.call "api/model/update"
          (("modelId", model_id) ∷ ("instanceTypeId", text instance_type) ∷ [])
    elim (object_of response) [ none ↦ raise attribute_error | some _ ↦ pure tt ]

  abbrev pub update_if : Bool → Json → String → Act B (Unit {0})
  update_if true id instance_type = update_instance_type id instance_type
  update_if false id instance_type = pure tt

  -- `_prepare_model` on an existing model, from its id on.
  unfoldable pub redeploy : Model → Json → String → ℤ → Act B Json
  redeploy model id instance_type num_devices =
      if not (equals (devices_or_one model.num_devices) num_devices) then raise value_error else (do
        _ ← stop backend (some id) none
        update_if (not (is_text instance_type model.instance_type)) id instance_type
        pure id)

  -- `_prepare_model` on an existing model, with its id.
  abbrev pub prepare_existing : Model → Option Json → String → ℤ → Act B Json
  prepare_existing model none instance_type num_devices = raise invalid_resource_response_error
  prepare_existing model (some id) instance_type num_devices =
      redeploy model id instance_type num_devices

  -- `_prepare_model` after the search for the name.
  unfoldable pub prepare_found : Option Model → String → String → ℤ → Act B Json
  prepare_found none model_name instance_type num_devices =
      create model_name instance_type num_devices
  prepare_found (some model) model_name instance_type num_devices =
      prepare_existing model model.id instance_type num_devices

  unfoldable pub prepare_model : String → String → ℤ → Act B Json
  prepare_model model_name instance_type num_devices = do
    existing ← find_by_name model_name
    prepare_found existing model_name instance_type num_devices

  -- What a pass of `_wait_for_compilation` makes of the model; `again` is the rest of the loop.
  abbrev pub check_model : Model → Act B (Option (Unit {0})) → Act B (Option (Unit {0}))
  check_model model again =
      if is_true model.is_compiled
      then pure (some tt)
      else if is_text "INACTIVE" model.status
      then raise compilation_error
      else again

  -- `_wait_for_compilation`, for `fuel` passes of its loop: none if it still waits then.
  unfoldable pub wait_from : ℕ → Json → ℕ → ℕ → ℕ → Act B (Option (Unit {0}))
  wait_from zero model_id poll_interval timeout start_time = pure none
  wait_from (suc fuel) model_id poll_interval timeout start_time =
      let again : Act B (Option (Unit {0})) =
        wait_from fuel model_id poll_interval timeout start_time in
      λ b.
        if leb timeout (backend.now b - start_time)
        then (b, err compilation_timeout_error)
        else bind (get_by_id model_id b)
            (λ model. check_model model (λ b'. again (backend.sleep poll_interval b')))

  unfoldable pub wait_for_compilation : ℕ → Json → ℕ → ℕ → Act B (Option (Unit {0}))
  wait_for_compilation fuel model_id poll_interval timeout b =
      wait_from fuel model_id poll_interval timeout (backend.now b) b

  -- DeploymentAPI.deploy, where `upload model_id` is `upload_file_and_alert` with the artifact's path
  -- and parameters, and the wait has its defaults: an interval of 5 and a timeout of 960 seconds.
  unfoldable pub deploy : (Json → Act B (Unit {0})) → ℕ → String → String → ℤ → Act B (Option Json)
  deploy upload fuel model_name instance_type num_devices = do
    model_id ← prepare_model model_name instance_type num_devices
    upload model_id
    done ← wait_for_compilation fuel model_id 5 960
    elim done [ none ↦ pure none | some _ ↦ pure (some model_id) ]
