-- ===== src/Studio/Workers.antt =====
-- lattica_studio_src/lattica_studio/resources/workers.py: WorkersAPI. The log lines are left out.
use lattica_studio.Prelude.{
  ℕ, zero, suc, ◌-◌, String, List, [], ◌∷◌, ◌++◌, Option, none, some, Bool, true, false, leb,
  if◌then◌else◌,
}
use lattica_studio.Result.{
  Result, ok, err, invalid_resource_response_error, worker_startup_timeout_error,
}
use lattica_studio.Studio.{
  Json, null, Worker, is_ready, worker_of, Backend, Act, bind, ◌>>=◌, pure, raise, lift,
}
use lattica_studio.Studio.Parse.{active_workers, session_workers}

-- An optional argument of a request: None is null.
abbrev pub or_null : Option Json → Json
or_null none = null
or_null (some value) = value

abbrev pub param : String → Option Json → List (String × Json)
param name none = []
param name (some value) = (name, value) ∷ []

module _ {B : Type 0} (backend : Backend B) where
  -- WorkersAPI.get
  unfoldable pub get : Json → Json → Act B Worker
  get model_id session_id = do
    response ←
        backend.call "api/worker/poll_worker_status"
          (("modelId", model_id) ∷ ("workerSessionId", session_id) ∷ [])
    lift (worker_of response)

  unfoldable pub active : Json → Act B (List Worker)
  active model_id = do
    response ← backend.call "api/worker/get_active_workers" (("modelId", model_id) ∷ [])
    lift (active_workers response)

  unfoldable pub stop : Option Json → Option Json → Act B Worker
  stop model_id session_id = do
    response ←
        backend.call "api/worker/stop_worker"
          (("modelId", or_null model_id) ∷ ("workerSessionId", or_null session_id) ∷ [])
    lift (worker_of response)

  -- `_start`
  unfoldable pub request_start : Json → Act B Worker
  request_start model_id = do
    response ← backend.call "api/worker/start_worker" (("modelId", model_id) ∷ [])
    lift (worker_of response)

  -- `_stop_abandoned`: a failed stop is passed over.
  unfoldable pub stop_abandoned : Json → Option Json → Act B (Unit {0})
  unfolding stop
  stop_abandoned model_id none b = (b, ok tt)
  stop_abandoned model_id (some session_id) b =
      ((stop (some model_id) (some session_id) b).0, ok tt)

  -- The next poll, of the worker's session.
  abbrev pub with_session : {A : Type 0} → Option Json → (Json → Act B A) → Act B A
  with_session none poll = raise invalid_resource_response_error
  with_session (some session_id) poll = poll session_id

  -- The loop of `start`, for `fuel` passes: none if the worker is still awaited then. `session_id` is the
  -- session that was polled last.
  unfoldable pub await_ready : ℕ → Json → ℕ → ℕ → ℕ → Option Json → Worker → Act B (Option Worker)
  await_ready zero model_id poll_interval timeout start_time session_id worker = pure none
  await_ready (suc fuel) model_id poll_interval timeout start_time session_id worker =
      let again : Json → Worker → Act B (Option Worker) =
        λ polled. await_ready fuel model_id poll_interval timeout start_time (some polled) in
      λ b.
        if is_ready worker
        then (b, ok (some worker))
        else if leb timeout (backend.now b - start_time)
        then ((stop_abandoned model_id session_id b).0, err worker_startup_timeout_error)
        else with_session worker.session_id (λ polled. get model_id polled >>= again polled)
            (backend.sleep poll_interval b)

  -- WorkersAPI.start
  unfoldable pub start : ℕ → Json → ℕ → ℕ → Act B (Option Worker)
  start fuel model_id poll_interval timeout b =
      (request_start model_id >>= λ worker b'.
      await_ready fuel model_id poll_interval timeout (backend.now b') worker.session_id worker b')
        b

  -- A worker that is not ready is stopped, if its session is known, before what follows.
  abbrev pub replace : Json → Option Json → Act B (Option Worker) → Act B (Option Worker)
  replace model_id none rest = rest
  replace model_id (some session_id) rest = stop (some model_id) (some session_id) >>= λ _. rest

  -- The loop of `get_or_start`, with what follows it.
  unfoldable pub reuse_or : Json → List Worker → Act B (Option Worker) → Act B (Option Worker)
  reuse_or model_id [] start_new = start_new
  reuse_or model_id (worker ∷ workers) start_new =
      let rest = reuse_or model_id workers start_new in
      if is_ready worker then pure (some worker) else replace model_id worker.session_id rest

  -- WorkersAPI.get_or_start: `start` with its defaults, an interval of 5 and a timeout of 1800 seconds.
  unfoldable pub get_or_start : ℕ → Json → Act B (Option Worker)
  get_or_start fuel model_id = do
    workers ← active model_id
    reuse_or model_id workers (start fuel model_id 5 1800)

  unfoldable pub list_sessions : Option Json → Option Json → Option Json → Act B (List Worker)
  list_sessions model_id from_date to_date = do
    response ←
        backend.call "api/worker/list_worker_sessions"
          (param "modelId" model_id ++ param "fromDate" from_date ++ param "toDate" to_date)
    lift (session_workers response)

  -- The `finally` of `running`: the error of a stop replaces what the body has raised.
  abbrev pub close_running : Json → Bool → Option Json → Act B (Unit {0})
  close_running model_id true (some session_id) b =
      (stop (some model_id) (some session_id) >>= λ _. pure tt) b
  close_running model_id true none b = (b, ok tt)
  close_running model_id false session_id b = (b, ok tt)

  abbrev pub after_close : {A : Type 0} → Result A → B × Result (Unit {0}) → B × Result A
  after_close r (b, ok _) = (b, r)
  after_close r (b, err e) = (b, err e)

  abbrev pub finally : {A : Type 0} → B × Result A → Act B (Unit {0}) → B × Result A
  finally (b, r) close = after_close r (close b)

  -- WorkersAPI.running, around the block `body` of its `with` statement
  unfoldable pub running : {A : Type 0} → ℕ → Json → Bool → (Worker → Act B A) → Act B (Option A)
  running fuel model_id stop_on_exit body = do
    found ← get_or_start fuel model_id
    elim found [
      | none ↦ pure none
      | some worker ↦ λ b.
          finally (bind (body worker b) (λ a. pure (some a)))
            (close_running model_id stop_on_exit worker.session_id)
    ]
