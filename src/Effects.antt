-- ===== src/Effects.antt =====
-- Actions on the world of a process: an effect works, raises an exception, or the process dies at it.
-- What each effect meets comes from a list of events; past its end all effects work.
pub mod Runs
use lattica_studio.Prelude.{List, [], ◌∷◌, Bool, true, false}
use lattica_studio.Result.{Result, ok, err, Error, os_error}

pub data Event : Type 0 where
  works : Event
  raises : Error → Event
  dies : Event

pub data Outcome (S A : Type 0) : Type 0 where
  done : A → S → List Event → Outcome S A
  raised : Error → S → List Event → Outcome S A
  died : S → Outcome S A

abbrev pub Action : Type 0 → Type 0 → Type 0
Action S A = S → List Event → Outcome S A

module _ {S : Type 0} where
  -- A change of the world; the identity is an effect that the model sees nothing of.
  unfoldable pub effect : (S → S) → Action S (Unit {0})
  effect change s [] = done tt (change s) []
  effect change s (works ∷ plan) = done tt (change s) plan
  effect change s (raises e ∷ plan) = raised e s plan
  effect change s (dies ∷ plan) = died s

module _ {S A : Type 0} where
  abbrev pub pure : A → Action S A
  pure a s plan = done a s plan

  abbrev pub from_result : Result A → Action S A
  from_result (ok a) s plan = done a s plan
  from_result (err e) s plan = raised e s plan

  abbrev pub gets : (S → Result A) → Action S A
  gets f s plan = from_result (f s) s plan

  abbrev undo : Action S (Unit {0}) → Outcome S A → Outcome S A
  undo cleanup (done a s plan) = done a s plan
  undo cleanup (died s) = died s
  undo cleanup (raised e s plan) = elim (cleanup s plan) [
    | done x s' plan' ↦ raised e s' plan'
    | raised e' s' plan' ↦ raised e' s' plan'
    | died s' ↦ died s'
  ]

  -- `try: m except BaseException: cleanup; raise`
  unfoldable pub on_error : Action S A → Action S (Unit {0}) → Action S A
  on_error m cleanup s plan = undo cleanup (m s plan)

  abbrev caught : Outcome S A → Outcome S Bool
  caught (done a s plan) = done true s plan
  caught (died s) = died s
  caught (raised os_error s plan) = done false s plan
  caught (raised e s plan) = raised e s plan

  -- `try: m except OSError`, with whether `m` has returned.
  unfoldable pub attempt : Action S A → Action S Bool
  attempt m s plan = caught (m s plan)

module _ {S A B : Type 0} where
  abbrev continue : Outcome S A → (A → Action S B) → Outcome S B
  continue (done a s plan) f = f a s plan
  continue (raised e s plan) f = raised e s plan
  continue (died s) f = died s

  infixl 5 ◌>>=◌ ◌>>◌
  unfoldable pub ◌>>=◌ : Action S A → (A → Action S B) → Action S B
  ◌>>=◌ m f s plan = continue (m s plan) f

  abbrev pub ◌>>◌ : Action S A → Action S B → Action S B
  m >> n = m >>= λ _. n

module _ {S A : Type 0} where
  -- `try: m finally: last`
  unfoldable pub finally : Action S A → Action S (Unit {0}) → Action S A
  unfolding on_error ◌>>=◌
  finally m last = do a ← on_error m last; last; pure a
