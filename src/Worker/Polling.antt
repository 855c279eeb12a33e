-- ===== src/Worker/Polling.antt =====
-- The polling loop ends.
use native.Mathlib.Nat.{suc-mul}
use lattica_studio.Prelude.{
  ℕ, zero, suc, ◌+◌, ◌-◌, ◌*◌, ◌≤◌, ◌<◌, ◌≡◌, String, List, [], ◌∷◌, true, false, ◌||◌, length, leb,
  Bool-cases, inl, inr, arith,
}
use lattica_studio.Result.{Result, ok, err}
use lattica_studio.Worker.{
  Sent, result, pending, Timings, Attempt, Polled, returned, raised, polling, is_timeout, sleep_for,
  send_request_once, after_sent, poll_for_result,
}

-- The clock does not go back, and a sleep lasts at least as long as asked for.
abbrev pub Clock : ℕ → ℕ → ℕ → List Attempt → Type 0
Clock interval deadline now [] = Unit
Clock interval deadline now (a ∷ attempts) =
    (now ≤ a.before_sleep)
    × (a.before_sleep + sleep_for interval deadline a.before_sleep ≤ a.after_sleep)
    × (a.after_sleep ≤ a.after_request)
    × Clock interval deadline a.after_request attempts

abbrev pub IsDone : Polled → Type 0
IsDone (polling id) = ⊥
IsDone (returned x) = Unit
IsDone (raised e) = Unit

after_sent-IsDone :
    (deadline : ℕ) (a : Attempt) (id : String) (t : Timings) (sent : Result Sent)
    (again : String → Timings × Polled)
    → ((next : String) → IsDone (again next).1)
    → IsDone (after_sent deadline a id t sent again).1
after_sent-IsDone deadline a id t (ok (result x)) again h = tt
after_sent-IsDone deadline a id t (ok (pending next)) again h = h next
after_sent-IsDone deadline a id t (err e) again h = elim (Bool-cases (is_timeout e)) [
  | inl e1 ↦ elim (Bool-cases (leb deadline a.after_request)) [
    | inl e2 ↦ rw (e1, e2) tt
    | inr e2 ↦ rw (e1, e2) (h id)
  ]
  | inr e1 ↦ rw e1 tt
]

-- A full interval has passed where the deadline is not reached.
later :
    (interval deadline n now : ℕ) (a : Attempt)
    → deadline ≤ now + suc n * interval
    → now ≤ a.before_sleep
    → a.before_sleep + sleep_for interval deadline a.before_sleep ≤ a.after_sleep
    → a.after_sleep ≤ a.after_request
    → (leb deadline a.before_sleep || leb deadline a.after_sleep) ≡ false
    → deadline ≤ a.after_request + n * interval
later interval deadline n now a enough h1 h2 h3 early =
    elim (Bool-cases (leb interval (deadline - a.before_sleep))) [
      | inl e ↦ ground (arith, suc-mul n interval)
      | inr e ↦ ground (arith, suc-mul n interval)
    ]

poll-late :
    (deadline : ℕ) (id : String) (t : Timings) (a : Attempt) (attempts : List Attempt)
    → (leb deadline a.before_sleep || leb deadline a.after_sleep) ≡ true
    → IsDone (poll_for_result deadline id t (a ∷ attempts)).1
unfolding poll_for_result
poll-late deadline id t a attempts h = rw h tt

poll-next :
    (deadline : ℕ) (id : String) (t : Timings) (a : Attempt) (attempts : List Attempt)
    → ((next : String) (t' : Timings) → IsDone (poll_for_result deadline next t' attempts).1)
    → (leb deadline a.before_sleep || leb deadline a.after_sleep) ≡ false
    → IsDone (poll_for_result deadline id t (a ∷ attempts)).1
unfolding poll_for_result
poll-next deadline id t a attempts h e =
    let (t', sent) = send_request_once t "get_action_result" a.duration a.outcome in
    rw e (
      after_sent-IsDone deadline a id t' sent (λ next. poll_for_result deadline next t' attempts)
        (λ next. h next t'))

-- Where the clock does not go back and sleeps last as long as asked for, the polling loop with an
-- interval and a deadline, begun at `now`, has ended after `n + 1` passes if `n` intervals reach from
-- `now` to the deadline: it has returned or raised, whatever the server answers.
pub poll_ends :
    (interval deadline : ℕ) (n now : ℕ) (id : String) (t : Timings) (attempts : List Attempt)
    → deadline ≤ now + n * interval
    → n < length attempts
    → Clock interval deadline now attempts
    → IsDone (poll_for_result deadline id t attempts).1
poll_ends interval deadline n now id t [] enough more clock = absurd (omega arith)
poll_ends interval deadline zero now id t (a ∷ attempts) enough more clock =
    poll-late deadline id t a attempts (ground (arith, clock.0))
poll_ends interval deadline (suc n) now id t (a ∷ attempts) enough more clock =
    let (h1, h2, h3, rest) = clock in
    elim (Bool-cases (leb deadline a.before_sleep || leb deadline a.after_sleep)) [
      | inl late ↦ poll-late deadline id t a attempts late
      | inr early ↦
          poll-next deadline id t a attempts
            (λ next t'.
              poll_ends interval deadline n a.after_request next t' attempts
                (later interval deadline n now a enough h1 h2 h3 early) (omega arith) rest)
            early
    ]
