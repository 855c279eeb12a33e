-- ===== src/Effects/Runs.antt =====
-- What holds of an action whatever its effects meet: of every world in which it may die, raise or end.
use mathlib.Core.Path.{subst}
use lattica_studio.Prelude.{◌≡◌, sym, ◌⊎◌, inl, inr, List, [], ◌∷◌, Bool, true, false}
use lattica_studio.Result.{Result, ok, err, Result-cases, Error, os_error}
use lattica_studio.Effects.{
  Event, works, raises, dies, Outcome, done, raised, died, Action, effect, pure, from_result, gets,
  undo, on_error, caught, attempt, continue, ◌>>=◌,
}

abbrev pub AllEvents : (Event → Type 0) → List Event → Type 0
AllEvents may [] = Unit
AllEvents may (event ∷ plan) = may event × AllEvents may plan

module _ {S : Type 0} where
  module _ (may : Event → Type 0) (crash : S → Type 0) where
    abbrev pub Holds : {A : Type 0} → (Error → S → Type 0) → (A → S → Type 0) → Outcome S A → Type 0
    Holds error post (done a s plan) = post a s × AllEvents may plan
    Holds error post (raised e s plan) = error e s × AllEvents may plan
    Holds error post (died s) = crash s

    -- With events among `may`, the action dies only in a world of `crash`, raises only into `error`
    -- and ends only in `post`.
    pub record Runs {A : Type 0} (error : Error → S → Type 0) (post : A → S → Type 0)
        (m : Action S A) (s : S) : Type 0 where
      pub at : (plan : List Event) → AllEvents may plan → Holds error post (m s plan)

module _ {S : Type 0} {may : Event → Type 0} {crash : S → Type 0} {error : Error → S → Type 0} where
  pub Runs-pure :
      {A : Type 0} {post : A → S → Type 0} (a : A) (s : S)
      → post a s
      → Runs may crash error post (pure a) s
  Runs-pure a s h = record { at = λ plan all. (h, all) }

  pub Runs-gets :
      {A : Type 0} {post : A → S → Type 0} (f : S → Result A) (s : S) {a : A}
      → f s ≡ ok a
      → post a s
      → Runs may crash error post (gets f) s
  Runs-gets f s e h = record { at = λ plan all. rw e (h, all) }

  pub Runs-result :
      {A : Type 0} {post : A → S → Type 0} (r : Result A) (s : S) {a : A}
      → r ≡ ok a
      → post a s
      → Runs may crash error post (from_result r) s
  Runs-result r s e h = record { at = λ plan all. rw e (h, all) }

  -- A computation on the world that may raise.
  pub Runs-gets_any :
      {A : Type 0} {post : A → S → Type 0} (f : S → Result A) (s : S)
      → ((a : A) → f s ≡ ok a → post a s)
      → ((e : Error) → f s ≡ err e → error e s)
      → Runs may crash error post (gets f) s
  Runs-gets_any f s good bad = elim (Result-cases (f s)) [
    | inl (a, e) ↦ Runs-gets f s e (good a e)
    | inr (x, e) ↦ record { at = λ plan all. rw e (bad x e, all) }
  ]

  pub Runs-effect :
      {post : Unit {0} → S → Type 0} (change : S → S) (s : S)
      → crash s
      → ((e : Error) → may (raises e) → error e s)
      → post tt (change s)
      → Runs may crash error post (effect change) s
  unfolding effect
  Runs-effect {post} change s c r h = record { at = each }
    where
      each :
          (plan : List Event)
          → AllEvents may plan
          → Holds may crash error post (effect change s plan)
      each [] all = (h, tt)
      each (works ∷ plan) all = (h, all.1)
      each (raises e ∷ plan) all = (r e all.0, all.1)
      each (dies ∷ plan) all = c

  module _ {A B : Type 0} where
    pub Runs-bind :
        {post : A → S → Type 0} {post' : B → S → Type 0} {m : Action S A} {f : A → Action S B}
        {s : S}
        → Runs may crash error post m s
        → ((a : A) (s' : S) → post a s' → Runs may crash error post' (f a) s')
        → Runs may crash error post' (m >>= f) s
    unfolding ◌>>=◌
    Runs-bind {post} {post'} {m} {f} {s} h k = record {
      at = λ plan all. go (m s plan) (h.at plan all);
    }
      where
        go :
            (o : Outcome S A)
            → Holds may crash error post o
            → Holds may crash error post' (continue o f)
        go (done a s' plan) (p, all) = (k a s' p).at plan all
        go (raised e s' plan) p = p
        go (died s') p = p

  module _ {A : Type 0} {post : A → S → Type 0} where
    pub Runs-weaken :
        {error' : Error → S → Type 0} {post' : A → S → Type 0} {m : Action S A} {s : S}
        → Runs may crash error' post' m s
        → ((e : Error) (s' : S) → error' e s' → error e s')
        → ((a : A) (s' : S) → post' a s' → post a s')
        → Runs may crash error post m s
    Runs-weaken {error'} {post'} {m} {s} h re rp = record {
      at = λ plan all. go (m s plan) (h.at plan all);
    }
      where
        go : (o : Outcome S A) → Holds may crash error' post' o → Holds may crash error post o
        go (done a s' plan) (p, all) = (rp a s' p, all)
        go (raised e s' plan) (p, all) = (re e s' p, all)
        go (died s') p = p

    -- The error that the action ends with holds after the cleanup, or the cleanup's own does.
    pub Runs-on_error :
        {failed : Error → S → Type 0} {m : Action S A} {cleanup : Action S (Unit {0})} {s : S}
        → Runs may crash failed post m s
        → ((e : Error) (s' : S) → failed e s' → Runs may crash error (λ _. error e) cleanup s')
        → Runs may crash error post (on_error m cleanup) s
    unfolding on_error
    Runs-on_error {failed} {m} {cleanup} {s} h k = record {
      at = λ plan all. go (m s plan) (h.at plan all);
    }
      where
        again :
            (e : Error) (o : Outcome S (Unit {0}))
            → Holds may crash error (λ _. error e) o
            → Holds may crash error post (elim o [
              | done x s' plan' ↦ raised e s' plan'
              | raised e' s' plan' ↦ raised e' s' plan'
              | died s' ↦ died s'
            ])
        again e (done x s' plan) p = p
        again e (raised e' s' plan) p = p
        again e (died s') p = p

        go :
            (o : Outcome S A)
            → Holds may crash failed post o
            → Holds may crash error post (undo cleanup o)
        go (done a s' plan) p = p
        go (raised e s' plan) (p, all) = again e (cleanup s' plan) ((k e s' p).at plan all)
        go (died s') p = p

    -- What starts where it is known to be.
    pub Runs-from :
        {m : Action S A} {s s' : S}
        → s' ≡ s
        → Runs may crash error post m s
        → Runs may crash error post m s'
    Runs-from {m} e h = subst (Runs may crash error post m) (sym e) h

  module _ {A B : Type 0} where
    -- A step that ends in one world, and what follows in it.
    pub Runs-then :
        {post : B → S → Type 0} {m : Action S A} {f : A → Action S B} {s t : S}
        → Runs may crash error (λ _ s'. s' ≡ t) m s
        → ((a : A) → Runs may crash error post (f a) t)
        → Runs may crash error post (m >>= f) s
    Runs-then h k = Runs-bind h (λ a s' e. Runs-from e (k a))

  module _ {A : Type 0} where
    -- An OSError ends in `post' false`; any other error goes on.
    pub Runs-attempt :
        {post' : Bool → S → Type 0} {m : Action S A} {s : S}
        → Runs may crash
            (λ e s'. post' false s' × ((e ≡ os_error) ⊎ error e s'))
            (λ _. post' true)
            m
            s
        → Runs may crash error post' (attempt m) s
    unfolding attempt
    Runs-attempt {post'} {m} {s} h = record { at = λ plan all. go (m s plan) (h.at plan all) }
      where
        go :
            (o : Outcome S A)
            → Holds may crash
                (λ e s'. post' false s' × ((e ≡ os_error) ⊎ error e s'))
                (λ _. post' true)
                o
            → Holds may crash error post' (caught o)
        go (done a s' plan) p = p
        go (raised os_error s' plan) ((q, r), all) = (q, all)
        go (raised e s' plan) ((q, inl same), all) = cc
        go (raised e s' plan) ((q, inr r), all) = (r, all)
        go (died s') p = p

module _ {S A : Type 0} {may : Event → Type 0} {crash crash' : S → Type 0}
    {error error' : Error → S → Type 0} {post post' : A → S → Type 0} where
  pub Runs-implies :
      {m : Action S A} {s : S}
      → Runs may crash' error' post' m s
      → ((s' : S) → crash' s' → crash s')
      → ((e : Error) (s' : S) → error' e s' → error e s')
      → ((a : A) (s' : S) → post' a s' → post a s')
      → Runs may crash error post m s
  Runs-implies {m} {s} h rc re rp = record { at = λ plan all. go (m s plan) (h.at plan all) }
    where
      go : (o : Outcome S A) → Holds may crash' error' post' o → Holds may crash error post o
      go (done a s' plan) (p, all) = (rp a s' p, all)
      go (raised e s' plan) (p, all) = (re e s' p, all)
      go (died s') p = rc s' p
