-- ===== src/Prelude/Count.antt =====
-- How often a number stands in a list, for statements that forget the order.
use lattica_studio.Prelude.{
  ℕ, ◌+◌, ◌≡◌, List, [], ◌∷◌, ◌++◌, ◌⊎◌, inl, inr, arith, ◌==◌, if◌then◌else◌,
}

abbrev pub count : ℕ → List ℕ → ℕ
count n [] = 0
count n (m ∷ rest) = (if m == n then 1 else 0) + count n rest

pub count-append :
    (n : ℕ) (before after : List ℕ) → count n (before ++ after) ≡ count n before + count n after
count-append n [] after = omega arith
count-append n (m ∷ before) after = let rest = count-append n before after in omega arith

-- A number stands in a list.
abbrev pub IsIn : ℕ → List ℕ → Type 0
IsIn n [] = ⊥
IsIn n (x ∷ xs) = (n ≡ x) ⊎ IsIn n xs

pub IsIn-append_left : (n : ℕ) (xs ys : List ℕ) → IsIn n xs → IsIn n (xs ++ ys)
IsIn-append_left n [] ys i = absurd i
IsIn-append_left n (x ∷ xs) ys i = elim i [
  | inl p ↦ inl p
  | inr j ↦ inr (IsIn-append_left n xs ys j)
]

pub IsIn-append_right : (n : ℕ) (xs ys : List ℕ) → IsIn n ys → IsIn n (xs ++ ys)
IsIn-append_right n [] ys i = i
IsIn-append_right n (x ∷ xs) ys i = inr (IsIn-append_right n xs ys i)
