-- ===== src/Primes/Pool.antt =====
-- The pools as a Python dict from bit-lengths to lists of primes, and `list.pop`.
use lattica_studio.Prelude.{
  ℕ, ◌+◌, ◌≡◌, refl, List, [], ◌∷◌, ◌++◌, Option, none, some, ◌==◌, if◌then◌else◌, arith,
}
use lattica_studio.Prelude.Count.{count}

abbrev pub Pools : Type 0
Pools = List (ℕ × List ℕ)

unfoldable pub lookup : ℕ → Pools → Option (List ℕ)
lookup p [] = none
lookup p ((q, l) ∷ pools) = if q == p then some l else lookup p pools

-- the list at a key that is there, after a change in place
unfoldable pub update : ℕ → List ℕ → Pools → Pools
update p l [] = []
update p l ((q, k) ∷ pools) = if q == p then (q, l) ∷ pools else (q, k) ∷ update p l pools

-- `xs.pop()`: the last entry, and what is left
unfoldable pub pop : List ℕ → Option (ℕ × List ℕ)
pop [] = none
pop (x ∷ []) = some (x, [])
pop (x ∷ y ∷ xs) = elim (pop (y ∷ xs)) [ none ↦ none | some (z, left) ↦ some (z, x ∷ left) ]

pub lookup-update :
    (p q : ℕ) (l : List ℕ) (pools : Pools)
    → lookup q (update p l pools) ≡ (
        if p == q
        then (elim (lookup p pools) [ none ↦ none | some _ ↦ some l ])
        else lookup q pools)
unfolding lookup update
lookup-update p q l [] = ground arith
lookup-update p q l ((r, k) ∷ pools) = ground (arith, lookup-update p q l pools)

-- What `pop` returns and leaves is the list, with the popped entry last.
pub pop-some :
    (x : ℕ) (xs : List ℕ)
    → (z : ℕ) × (left : List ℕ) × (pop (x ∷ xs) ≡ some (z, left)) × (left ++ z ∷ [] ≡ x ∷ xs)
unfolding pop
pop-some x [] = (x, [], refl, refl)
pop-some x (y ∷ xs) =
    let (z, left, e, whole) = pop-some y xs in (z, x ∷ left, rw e, λ i. x ∷ whole i)

-- How often a number stands in all the pools together.
abbrev pub count_all : ℕ → Pools → ℕ
count_all a [] = 0
count_all a ((_, l) ∷ pools) = count a l + count_all a pools

pub count_all-update :
    (a p : ℕ) (l k : List ℕ) (pools : Pools)
    → lookup p pools ≡ some k
    → count_all a (update p l pools) + count a k ≡ count_all a pools + count a l
unfolding lookup update
count_all-update a p l k [] h = cc
count_all-update a p l k ((q, m) ∷ pools) h = ground (arith, count_all-update a p l k pools)
