-- ===== src/Prelude/Python.antt =====
-- What the program uses of Python's sequences: negative indices, slices and `%`, over integers.
use lattica_studio.Prelude.{
  ℕ, ◌≡◌, true, ◌-◌, ◌+◌, ◌%◌, Bool, ◌==◌, ◌≤◌, List, Option, none, some, arith, length, take, drop,
  get_elem?, ltb, leb, if◌then◌else◌,
}
use lattica_studio.Prelude.Int.{ℤ, pos, negsuc, pos_part, neg_part}

-- The tests of integers.
abbrev pub eqb_ℤ : ℤ → ℤ → Bool
eqb_ℤ a b = (pos_part a + neg_part b) == (pos_part b + neg_part a)

abbrev pub leb_ℤ : ℤ → ℤ → Bool
leb_ℤ a b = leb (pos_part a + neg_part b) (pos_part b + neg_part a)

-- `len(xs) + i` for a negative `i`, and none below the start.
abbrev pub item_index : ℕ → ℤ → Option ℕ
item_index n (pos i) = if ltb i n then some i else none
item_index n (negsuc i) = if ltb i n then some (n - 1 - i) else none

-- A slice bound is cut to the range of the sequence.
abbrev pub clamp_index : ℕ → ℤ → ℕ
clamp_index n (pos i) = if leb i n then i else n
clamp_index n (negsuc i) = if ltb i n then n - 1 - i else 0

module _ {ℓ} {A : Type ℓ} where
  -- `xs[i]`
  abbrev pub get_item? : List A → ℤ → Option A
  get_item? xs i = elim (item_index (length xs) i) [ none ↦ none | some k ↦ get_elem? xs k ]

  -- `xs[:i]`
  abbrev pub slice_to : List A → ℤ → List A
  slice_to xs i = take (clamp_index (length xs) i) xs

  -- `xs[i:]`
  abbrev pub slice_from : List A → ℤ → List A
  slice_from xs i = drop (clamp_index (length xs) i) xs

-- `a % n` for a positive `n`: the result has the sign of `n`.
abbrev pub mod_ℤ : ℤ → ℕ → ℕ
mod_ℤ (pos a) n = a % n
mod_ℤ (negsuc a) n = n - 1 - a % n

pub clamp_index-le : (n : ℕ) (i : ℤ) → clamp_index n i ≤ n
clamp_index-le n (pos i) = ground arith
clamp_index-le n (negsuc i) = ground arith

pub eqb_ℤ→eq : (a b : ℤ) → eqb_ℤ a b ≡ true → a ≡ b
eqb_ℤ→eq a b h = ground arith

pub eqb_ℤ-refl : (a : ℤ) → eqb_ℤ a a ≡ true
eqb_ℤ-refl a = ground arith
