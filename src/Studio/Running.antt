-- ===== src/Studio/Running.antt =====
-- The worker of a `running` block is stopped however the block ends.
use lattica_studio.Prelude.{ℕ, ◌≡◌, refl, ap, ◌∙◌, Option, some, true}
use lattica_studio.Result.{Result, ok, err}
use lattica_studio.Studio.{Json, Worker, Backend, Act, bind, pure}
use lattica_studio.Studio.Workers.{stop, get_or_start, close_running, finally, running}

module _ {B A : Type 0} (backend : Backend B) (fuel : ℕ) (model_id : Json)
    (body : Worker → Act B A) where
  -- The outcome of the block, unless the stop raises.
  abbrev pub outcome : Result Worker → Result A → Result (Option A)
  outcome (err e) r = err e
  outcome (ok _) (ok a) = ok (some a)
  outcome (ok _) (err e) = err e

  close-outcome :
      (id : Json) (r : Result A) (b : B) (s : B × Result Worker)
      → stop backend (some model_id) (some id) b ≡ s
      → finally backend
          (bind (b, r) (λ a. pure (some a)))
          (close_running backend model_id true (some id))
        ≡ (s.0, outcome s.1 r)
  close-outcome id (ok a) b (b', ok w) h = rw h
  close-outcome id (ok a) b (b', err e) h = rw h
  close-outcome id (err x) b (b', ok w) h = rw h
  close-outcome id (err x) b (b', err e) h = rw h

  -- With `stop_on_exit`, and a worker whose session is known, the `running` block ends with a stop
  -- of that session in the state that the block leaves, whether the block returns or raises. It
  -- comes to what the block comes to, or to the error of the stop if the stop raises.
  pub running_stops :
      (b b' : B) (worker : Worker) (id : Json)
      → get_or_start backend fuel model_id b ≡ (b', ok (some worker))
      → worker.session_id ≡ some id
      → let block = body worker b' in
        let stopped = stop backend (some model_id) (some id) block.0 in
        running backend fuel model_id true body b ≡ (stopped.0, outcome stopped.1 block.1)
  unfolding running
  running_stops b b' worker id h known =
      let block = body worker b' in
      rw h (
        ap
          (λ o.
            finally backend (bind block (λ a. pure (some a)))
              (close_running backend model_id true o))
          known
        ∙ close-outcome id block.1 block.0 (stop backend (some model_id) (some id) block.0) refl)
