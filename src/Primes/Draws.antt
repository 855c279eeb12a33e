-- ===== src/Primes/Draws.antt =====
-- The loop that draws primes from the pools.
use lattica_studio.Prelude.{
  ℕ, suc, ◌+◌, ◌≤◌, ◌≡◌, ◌≢◌, refl, sym, ap, ◌∙◌, List, [], ◌∷◌, ◌++◌, none, some, false, length,
  length-append, ◌==◌, arith, Option-cases, inl, inr, if◌then◌else◌,
}
use lattica_studio.Prelude.Count.{count, count-append}
use lattica_studio.Result.{ok, >>=-eq-ok, ◌>>=◌}
use lattica_studio.Primes.{has_unknown, has_shortage, draw}
use lattica_studio.Primes.Pool.{
  Pools, lookup, update, pop, lookup-update, pop-some, count_all, count_all-update,
}

-- How many primes of a precision are left.
abbrev pub available : ℕ → Pools → ℕ
available p pools = elim (lookup p pools) [ none ↦ 0 | some l ↦ length l ]

abbrev pub pool_of : ℕ → Pools → List ℕ
pool_of p pools = elim (lookup p pools) [ none ↦ [] | some l ↦ l ]

abbrev pub Suffices : List ℕ → Pools → Type 0
Suffices ps pools = (p : ℕ) → count p ps ≤ available p pools

no_shortage :
    (ps all : List ℕ) (pools : Pools) (p : ℕ)
    → has_unknown ps pools ≡ false
    → has_shortage ps all pools ≡ false
    → count p ps ≢ 0
    → count p all ≤ available p pools
unfolding has_unknown has_shortage
no_shortage [] all pools p h k ne = absurd (ne refl)
no_shortage (q ∷ ps) all pools p h k ne = ground (arith, no_shortage ps all pools p)

pub Suffices-of_checks :
    (ps : List ℕ) (pools : Pools)
    → has_unknown ps pools ≡ false
    → has_shortage ps ps pools ≡ false
    → Suffices ps pools
Suffices-of_checks ps pools h k p = grind (arith, no_shortage ps ps pools p h k)

-- A step of the loop over the pool of `p`: it pops `prime` and leaves `left`.
record IsStep (p : ℕ) (pools : Pools) (prime : ℕ) (left pool : List ℕ) : Type 0 where
  found : lookup p pools ≡ some pool
  popped : pop pool ≡ some (prime, left)
  whole : left ++ prime ∷ [] ≡ pool

IsStep-of_pool :
    (p : ℕ) (pools : Pools) (pool : List ℕ)
    → lookup p pools ≡ some pool
    → length pool ≢ 0
    → (prime : ℕ) × (left : List ℕ) × IsStep p pools prime left pool
IsStep-of_pool p pools [] e ne = absurd (ne refl)
IsStep-of_pool p pools (x ∷ xs) e ne =
    let (prime, left, popped, whole) = pop-some x xs in
    (prime, left, record { found = e; popped = popped; whole = whole })

IsStep-of_enough :
    (p : ℕ) (pools : Pools)
    → available p pools ≢ 0
    → (prime : ℕ) × (left : List ℕ) × (pool : List ℕ) × IsStep p pools prime left pool
IsStep-of_enough p pools ne = elim (Option-cases (lookup p pools)) [
  | inl e ↦ absurd (ne (rw (e, available)))
  | inr (pool, e) ↦
      let (prime, left, s) = IsStep-of_pool p pools pool e (rw (e, available) at ne) in
      (prime, left, pool, s)
]

step_of_ok :
    (p : ℕ) (ps : List ℕ) (pools : Pools) {xs : List ℕ}
    → draw (p ∷ ps) pools ≡ ok xs
    → available p pools ≢ 0
unfolding draw pop
step_of_ok p ps pools h e = elim (Option-cases (lookup p pools)) [
  | inl f ↦ ground arith
  | inr ([], f) ↦ ground arith
  | inr (x ∷ l, f) ↦ ground arith
]

module _ {p : ℕ} {pools : Pools} {prime : ℕ} {left pool : List ℕ}
    (s : IsStep p pools prime left pool) where
  draw-step :
      (ps : List ℕ)
      → draw (p ∷ ps) pools ≡ (do assigned ← draw ps (update p left pools); ok (prime ∷ assigned))
  unfolding draw
  draw-step ps = rw (s.found, s.popped)

  length-step : length left + 1 ≡ length pool
  length-step = rw (← s.whole) (omega (arith, length-append left (prime ∷ [])))

  available-step :
      (q : ℕ) → available q pools ≡ available q (update p left pools) + (if p == q then 1 else 0)
  available-step q = ground (arith, lookup-update p q left pools, s.found, length-step)

  count_all-step :
      (a : ℕ)
      → count_all a (update p left pools) + (if prime == a then 1 else 0) ≡ count_all a pools
  count_all-step a =
      let e : count a pool ≡ count a left + count a (prime ∷ []) =
        rw (← s.whole) (count-append a left (prime ∷ [])) in
      ground (arith, count_all-update a p left pool pools s.found, e)

  Suffices-step : (ps : List ℕ) → Suffices (p ∷ ps) pools → Suffices ps (update p left pools)
  Suffices-step ps enough q = ground (arith, enough q, available-step q)

-- With primes enough for every precision the loop ends with one prime for each.
pub draw_total :
    (ps : List ℕ) (pools : Pools)
    → Suffices ps pools
    → (xs : List ℕ) × (draw ps pools ≡ ok xs) × (length xs ≡ length ps)
draw_total [] pools enough = ([], unfold draw in refl, refl)
draw_total (p ∷ ps) pools enough =
    let (prime, left, pool, s) = IsStep-of_enough p pools (ground (arith, enough p)) in
    let (xs, e, l) = draw_total ps (update p left pools) (Suffices-step s ps enough) in
    (prime ∷ xs, draw-step s ps ∙ (rw e), ap suc l)

draw-cons-ok :
    (p : ℕ) (ps : List ℕ) (pools : Pools) {xs : List ℕ}
    → draw (p ∷ ps) pools ≡ ok xs
    → (prime : ℕ) × (left pool rest : List ℕ) × IsStep p pools prime left pool
      × (xs ≡ prime ∷ rest)
      × (draw ps (update p left pools) ≡ ok rest)
draw-cons-ok p ps pools {xs} h =
    let (prime, left, pool, s) = IsStep-of_enough p pools (step_of_ok p ps pools h) in
    let (rest, e, f) =
      >>=-eq-ok (draw ps (update p left pools)) (λ assigned. ok (prime ∷ assigned))
        (sym (draw-step s ps) ∙ h) in
    (prime, left, pool, rest, s, cc, e)

draw-nil : (pools : Pools) {xs : List ℕ} → draw [] pools ≡ ok xs → xs ≡ []
unfolding draw
draw-nil pools h = cc

pub length-draw :
    (ps : List ℕ) (pools : Pools) (xs : List ℕ) → draw ps pools ≡ ok xs → length xs ≡ length ps
length-draw [] pools xs h = rw (draw-nil pools h)
length-draw (p ∷ ps) pools xs h =
    let (prime, left, pool, rest, s, e, f) = draw-cons-ok p ps pools h in
    rw e (ap suc (length-draw ps (update p left pools) rest f))

-- Each prime stands in the pool of the precision that it is drawn for.
abbrev pub FromPools : Pools → List ℕ → List ℕ → Type 0
FromPools pools [] [] = Unit
FromPools pools (p ∷ ps) (x ∷ xs) = (count x (pool_of p pools) ≢ 0) × FromPools pools ps xs
FromPools pools _ _ = ⊥

-- The drawn primes are taken out of the pools: no number is drawn more often than it stands there.
pub draw-count :
    (ps : List ℕ) (pools : Pools) (xs : List ℕ)
    → draw ps pools ≡ ok xs
    → (a : ℕ) → count a xs ≤ count_all a pools
draw-count [] pools xs h a = rw (draw-nil pools h) (omega arith)
draw-count (p ∷ ps) pools xs h a =
    let (prime, left, pool, rest, s, e, f) = draw-cons-ok p ps pools h in
    rw e (ground (arith, draw-count ps (update p left pools) rest f a, count_all-step s a))

FromPools-mono :
    (pools smaller : Pools) (ps xs : List ℕ)
    → ((q a : ℕ) → count a (pool_of q smaller) ≤ count a (pool_of q pools))
    → FromPools smaller ps xs
    → FromPools pools ps xs
FromPools-mono pools smaller [] [] le h = tt
FromPools-mono pools smaller (p ∷ ps) (x ∷ xs) le h =
    (ground (arith, le p x, h.0), FromPools-mono pools smaller ps xs le h.1)
FromPools-mono pools smaller [] (x ∷ xs) le h = absurd h
FromPools-mono pools smaller (p ∷ ps) [] le h = absurd h

pool_of-step :
    {p : ℕ} {pools : Pools} {prime : ℕ} {left pool : List ℕ}
    → IsStep p pools prime left pool
    → (q a : ℕ) → count a (pool_of q (update p left pools)) ≤ count a (pool_of q pools)
pool_of-step {p} {pools} {prime} {left} {pool} s q a =
    let e : count a pool ≡ count a left + count a (prime ∷ []) =
      rw (← s.whole) (count-append a left (prime ∷ [])) in
    ground (arith, lookup-update p q left pools, s.found, e)

prime-in_pool :
    {p : ℕ} {pools : Pools} {prime : ℕ} {left pool : List ℕ}
    → IsStep p pools prime left pool
    → count prime (pool_of p pools) ≢ 0
prime-in_pool {p} {pools} {prime} {left} {pool} s =
    let e : count prime pool ≡ count prime left + count prime (prime ∷ []) =
      rw (← s.whole) (count-append prime left (prime ∷ [])) in
    ground (arith, s.found, e)

pub draw-FromPools :
    (ps : List ℕ) (pools : Pools) (xs : List ℕ) → draw ps pools ≡ ok xs → FromPools pools ps xs
draw-FromPools [] pools xs h = rw (draw-nil pools h) tt
draw-FromPools (p ∷ ps) pools xs h =
    let (prime, left, pool, rest, s, e, f) = draw-cons-ok p ps pools h in
    rw e (
      prime-in_pool s,
      FromPools-mono pools (update p left pools) ps rest (pool_of-step s)
          (draw-FromPools ps (update p left pools) rest f),
    )
