-- ===== src/Studio/Start.antt =====
-- What waiting for a worker comes to: a ready worker, or an error, in a bounded number of polls.
use native.Mathlib.Nat.{suc-mul}
use lattica_studio.Prelude.{
  ℕ, zero, suc, ◌+◌, ◌-◌, ◌*◌, ◌≤◌, ◌<◌, ◌≡◌, refl, List, [], ◌∷◌, Option, none, some, true, arith,
  leb, Bool-cases, inl, inr,
}
use lattica_studio.Result.{Result, ok, err, Error}
use lattica_studio.Studio.{Json, Worker, is_ready, Backend, ClockLaws, Act, bind, worker_of, lift}
use lattica_studio.Studio.Workers.{
  get, active, stop, request_start, replace, with_session, await_ready, start, reuse_or,
  get_or_start,
}

-- A worker that is returned is ready.
abbrev pub Ready : Result (Option Worker) → Type 0
Ready (err e) = Unit
Ready (ok none) = Unit
Ready (ok (some worker)) = is_ready worker ≡ true

abbrev pub Raises : {A : Type 0} → (Result A → Type 0) → Type 0
Raises P = (e : Error) → P (err e)

-- `P` holds of what a chain comes to if it holds of every error and of what the rest comes to from
-- every state where `Q` holds.
pub bind-holds :
    {B A C : Type 0} (P : Result C → Type 0) (Q : B → Type 0) (r : B × Result A) (f : A → Act B C)
    → Raises P
    → Q r.0
    → ((a : A) (b : B) → Q b → P (f a b).1)
    → P (bind r f).1
bind-holds P Q (b, ok a) f raises q h = h a b q
bind-holds P Q (b, err e) f raises q h = raises e

Ready-Raises : Raises Ready
Ready-Raises e = tt

module _ {B : Type 0} (backend : Backend B) where
  with_session-holds :
      {A : Type 0} (P : Result A → Type 0) (o : Option Json) (poll : Json → Act B A) (b : B)
      → Raises P
      → ((id : Json) → P (poll id b).1)
      → P (with_session backend o poll b).1
  with_session-holds P none poll b raises h = raises _
  with_session-holds P (some id) poll b raises h = h id

  await_ready-Ready :
      (fuel : ℕ) (model_id : Json) (poll_interval timeout start_time : ℕ) (session_id : Option Json)
      (worker : Worker) (b : B)
      → Ready
          (await_ready backend fuel model_id poll_interval timeout start_time session_id worker b).1
  unfolding await_ready
  await_ready-Ready zero model_id poll_interval timeout start_time session_id worker b = tt
  await_ready-Ready (suc fuel) model_id poll_interval timeout start_time session_id worker b =
      elim (Bool-cases (is_ready worker)) [
        | inl e ↦ rw e e
        | inr e ↦ elim (Bool-cases (leb timeout (backend.now b - start_time))) [
          | inl late ↦ rw (e, late) tt
          | inr early ↦
              rw (e, early)
                (with_session-holds Ready worker.session_id _ (backend.sleep poll_interval b)
                  Ready-Raises
                  λ polled.
                    bind-holds Ready (λ _. Unit)
                      (get backend model_id polled (backend.sleep poll_interval b)) _ Ready-Raises
                      tt
                      λ again b' _.
                        await_ready-Ready fuel model_id poll_interval timeout start_time
                          (some polled) again b')
        ]
      ]

  start-Ready :
      (fuel : ℕ) (model_id : Json) (poll_interval timeout : ℕ) (b : B)
      → Ready (start backend fuel model_id poll_interval timeout b).1
  unfolding start
  start-Ready fuel model_id poll_interval timeout b =
      bind-holds Ready (λ _. Unit) (request_start backend model_id b) _ Ready-Raises tt
        λ worker b' _.
          await_ready-Ready fuel model_id poll_interval timeout (backend.now b') worker.session_id
            worker b'

  replace-Ready :
      (model_id : Json) (o : Option Json) (rest : Act B (Option Worker))
      → ((b : B) → Ready (rest b).1)
      → (b : B) → Ready (replace backend model_id o rest b).1
  replace-Ready model_id none rest h b = h b
  replace-Ready model_id (some id) rest h b =
      bind-holds Ready (λ _. Unit) (stop backend (some model_id) (some id) b) (λ _. rest)
        Ready-Raises tt λ _ b' _. h b'

  reuse_or-Ready :
      (model_id : Json) (workers : List Worker) (start_new : Act B (Option Worker))
      → ((b : B) → Ready (start_new b).1)
      → (b : B) → Ready (reuse_or backend model_id workers start_new b).1
  unfolding reuse_or
  reuse_or-Ready model_id [] start_new h b = h b
  reuse_or-Ready model_id (worker ∷ workers) start_new h b =
      let rest = reuse_or-Ready model_id workers start_new h in
      elim (Bool-cases (is_ready worker)) [
        | inl e ↦ rw e e
        | inr e ↦ rw e (
            replace-Ready model_id worker.session_id (reuse_or backend model_id workers start_new)
              rest b)
      ]

  -- Whatever the backend answers, a worker that `get_or_start` returns is ready.
  pub get_or_start-Ready :
      (fuel : ℕ) (model_id : Json) (b : B) → Ready (get_or_start backend fuel model_id b).1
  unfolding get_or_start
  get_or_start-Ready fuel model_id b =
      bind-holds Ready (λ _. Unit) (active backend model_id b) _ Ready-Raises tt
        λ workers b' _. reuse_or-Ready model_id workers _ (start-Ready fuel model_id 5 1800) b'

-- The wait is over.
abbrev pub IsOver : {A : Type 0} → Result (Option A) → Type 0
IsOver (err e) = Unit
IsOver (ok none) = ⊥
IsOver (ok (some a)) = Unit

IsOver-Raises : Raises (IsOver {A = Worker})
IsOver-Raises e = tt

pub one_less :
    (n deadline now interval : ℕ)
    → deadline ≤ now + n * interval
    → now < deadline
    → (k : ℕ) × (n ≡ suc k) × (deadline ≤ now + interval + k * interval)
one_less zero deadline now interval h l = absurd (omega arith)
one_less (suc k) deadline now interval h l = (k, refl, omega (arith, suc-mul k interval))

module _ {B : Type 0} (backend : Backend B) (laws : ClockLaws backend) where
  pub lift-world :
      {A C : Type 0} (r : B × Result A) (g : A → Result C) → (bind r (λ a. lift (g a))).0 ≡ r.0
  lift-world (b, ok a) g = refl
  lift-world (b, err e) g = refl

  get-later :
      (model_id id : Json) (b : B) (now : ℕ)
      → now ≤ backend.now b
      → now ≤ backend.now (get backend model_id id b).0
  unfolding get
  get-later model_id id b now h =
      rw
        (lift-world
          (backend.call "api/worker/poll_worker_status"
            (("modelId", model_id) ∷ ("workerSessionId", id) ∷ []) b)
          worker_of)
        (omega (
          arith,
          laws.call_later "api/worker/poll_worker_status"
              (("modelId", model_id) ∷ ("workerSessionId", id) ∷ []) b,
        ))

  await_ready-IsOver :
      (n fuel : ℕ) (model_id : Json) (poll_interval timeout start_time : ℕ)
      (session_id : Option Json) (worker : Worker) (b : B)
      → start_time + timeout ≤ backend.now b + n * poll_interval
      → n < fuel
      → IsOver
          (await_ready backend fuel model_id poll_interval timeout start_time session_id worker b).1
  unfolding await_ready
  await_ready-IsOver n zero model_id poll_interval timeout start_time session_id worker b enough
        more =
      absurd (omega arith)
  await_ready-IsOver n (suc fuel) model_id poll_interval timeout start_time session_id worker b
        enough more =
      elim (Bool-cases (is_ready worker)) [
        | inl e ↦ rw e tt
        | inr e ↦ elim (Bool-cases (leb timeout (backend.now b - start_time))) [
          | inl late ↦ rw (e, late) tt
          | inr early ↦
              let (k, is_suc, enough') =
                one_less n (start_time + timeout) (backend.now b) poll_interval enough
                  (ground arith) in
              let slept = backend.sleep poll_interval b in
              rw (e, early)
                (with_session-holds backend IsOver worker.session_id _ slept IsOver-Raises λ polled.
                  bind-holds IsOver
                    (λ b'. start_time + timeout ≤ backend.now b' + k * poll_interval)
                    (get backend model_id polled slept) _ IsOver-Raises
                    (omega (
                      arith,
                      enough',
                      laws.sleep_later poll_interval b,
                      get-later model_id polled slept (backend.now slept) (omega arith),
                    ))
                    λ again b' h.
                      await_ready-IsOver k fuel model_id poll_interval timeout start_time
                        (some polled) again b' h (omega arith))
        ]
      ]

  -- Where the clock does not go back and sleeps last as long as asked for, `start` is over, with a worker
  -- or an error, after `n + 1` passes of its loop if `n` poll intervals last as long as the timeout.
  pub start-IsOver :
      (n fuel : ℕ) (model_id : Json) (poll_interval timeout : ℕ) (b : B)
      → timeout ≤ n * poll_interval
      → n < fuel
      → IsOver (start backend fuel model_id poll_interval timeout b).1
  unfolding start
  start-IsOver n fuel model_id poll_interval timeout b enough more =
      bind-holds IsOver (λ _. Unit) (request_start backend model_id b) _ IsOver-Raises tt
        λ worker b' _.
          await_ready-IsOver n fuel model_id poll_interval timeout (backend.now b')
            worker.session_id worker b' (omega arith) more
