-- ===== src/Storage/Precedes.antt =====
-- The comparison of paths and times that `_newest` of lattica_query_src/lattica_query/storage/token_store.py
-- makes, as an order of texts.
use lattica_studio.Prelude.{
  ℕ, ◌≡◌, ◌≤◌, ◌<◌, ◌==◌, ◌++◌, refl, ap, List, [], ◌∷◌, false, Bool-cases, ◌⊎◌, inl, inr, arith,
}
use lattica_studio.Storage.Tokens.{Candidate, is_after, is_newer}

-- One text stands before another, or is the same: it starts the other, or has a lesser character where
-- they first differ.
abbrev pub Precedes : List ℕ → List ℕ → Type 0
Precedes xs ys =
    ((rest : List ℕ) × (ys ≡ xs ++ rest))
    ⊎ ((shared xs' ys' : List ℕ) × (a b : ℕ) × (xs ≡ shared ++ a ∷ xs')
        × (ys ≡ shared ++ b ∷ ys')
        × (a < b))

Precedes-cons : (a : ℕ) (xs ys : List ℕ) → Precedes xs ys → Precedes (a ∷ xs) (a ∷ ys)
Precedes-cons a xs ys (inl (rest, e)) = inl (rest, ap (λ t. a ∷ t) e)
Precedes-cons a xs ys (inr (shared, xs', ys', c, d, e, f, less)) =
    inr (a ∷ shared, xs', ys', c, d, ap (λ t. a ∷ t) e, ap (λ t. a ∷ t) f, less)

is_after-Precedes : (xs ys : List ℕ) → is_after xs ys ≡ false → Precedes xs ys
unfolding is_after
is_after-Precedes [] ys h = inl (ys, refl)
is_after-Precedes (a ∷ xs) [] h = cc
is_after-Precedes (a ∷ xs) (b ∷ ys) h = elim (Bool-cases (a == b)) [
  | inl e ↦
      let same : a ≡ b = ground arith in
      rw (← same) (Precedes-cons a xs ys (is_after-Precedes xs ys (ground arith)))
  | inr e ↦ inr ([], xs, ys, a, b, refl, refl, ground arith)
]

pub is_newer-time :
    (m k : ℕ) (c d : Candidate)
    → is_newer (k, d) (m, c) ≡ false
    → (k ≤ m) × (k ≡ m → Precedes d.path c.path)
unfolding is_newer
is_newer-time m k c d h = (ground arith, λ e. is_after-Precedes d.path c.path (ground arith))
