-- ===== src/Align/Order.antt =====
-- The traced consumption order names every row of the pipeline once.
use mathlib.Core.List.{reverse, reverse-cons}
use lattica_studio.Prelude.{
  ℕ, ◌≤◌, ◌≡◌, refl, ap, ◌∙◌, List, [], ◌∷◌, ◌++◌, some, Bool, true, false, arith, Bool-cases, inl,
  inr, ◌==◌, ==_iff, if◌then◌else◌,
}
use lattica_studio.Prelude.Count.{count, count-append}
use lattica_studio.Result.{ok}
use lattica_studio.Chain.{ModulusChain, pipeline, rows_of, is_in, without}
use lattica_studio.Align.{from_keys, within, traced_consumption_order}

abbrev bit : Bool → ℕ
bit true = 1
bit false = 0

-- 1 where the first holds and the second does not
abbrev only : Bool → Bool → ℕ
only true false = 1
only true true = 0
only false b = 0

count-reverse : (x : ℕ) (xs : List ℕ) → count x (reverse xs) ≡ count x xs
count-reverse x [] = refl
count-reverse x (y ∷ xs) =
    rw (reverse-cons y xs) (omega (arith, count-append x (reverse xs) (y ∷ []), count-reverse x xs))

pub count-is_in : (x : ℕ) (xs : List ℕ) → is_in x xs ≡ false → count x xs ≡ 0
unfolding is_in
count-is_in x [] h = refl
count-is_in x (y ∷ xs) h = let more = count-is_in x xs in ground arith

is_in-count : (x : ℕ) (xs : List ℕ) → is_in x xs ≡ true → 1 ≤ count x xs
unfolding is_in
is_in-count x [] h = cc
is_in-count x (y ∷ xs) h = let more = is_in-count x xs in ground arith

-- Each key stands once, unless it was seen.
count-from_keys :
    (x : ℕ) (seen xs : List ℕ) → count x (from_keys seen xs) ≡ only (is_in x xs) (is_in x seen)
unfolding from_keys is_in
count-from_keys x seen [] = refl
count-from_keys x seen (y ∷ xs) =
    let skip = count-from_keys x seen xs in
    let keep = count-from_keys x (y ∷ seen) xs in
    let same : (y == x) ≡ true → is_in y seen ≡ is_in x seen =
      λ e. ap (λ z. is_in z seen) ((==_iff y x).0 e) in
    elim (Bool-cases (y == x)) [ inl e ↦ let s = same e in ground arith | inr e ↦ ground arith ]

is_in-within : (x : ℕ) (base xs : List ℕ) → is_in x (within base xs) ≡ true → is_in x base ≡ true
unfolding within is_in
is_in-within x base [] h = cc
is_in-within x base (y ∷ xs) h =
    let more = is_in-within x base xs in
    elim (Bool-cases (y == x)) [
      | inl e ↦
          let s : is_in y base ≡ is_in x base = ap (λ z. is_in z base) ((==_iff y x).0 e) in
          ground arith
      | inr e ↦ ground arith
    ]

count-without :
    (x : ℕ) (base xs : List ℕ)
    → count x (without base xs) ≡ (if is_in x base then 0 else count x xs)
unfolding without
count-without x base [] = ground arith
count-without x base (y ∷ xs) =
    let more = count-without x base xs in
    elim (Bool-cases (y == x)) [
      | inl e ↦
          let s : is_in y base ≡ is_in x base = ap (λ z. is_in z base) ((==_iff y x).0 e) in
          ground arith
      | inr e ↦ ground arith
    ]

is_in-nil : (x : ℕ) → is_in x [] ≡ false
unfolding is_in
is_in-nil x = refl

-- What is dropped: the rows of the pipeline among the drops, each once.
module _ (rows drops : List ℕ) where
  abbrev dropped : List ℕ
  dropped = reverse (from_keys [] (within rows drops))

  count-dropped : (x : ℕ) → count x dropped ≡ only (is_in x (within rows drops)) false
  count-dropped x =
      count-reverse x (from_keys [] (within rows drops))
      ∙ count-from_keys x [] (within rows drops)
      ∙ ap (only (is_in x (within rows drops))) (is_in-nil x)

  -- A row that is dropped once, and a row that is not dropped, stand in the order as often as in the
  -- pipeline, where the pipeline has no row twice.
  count-order :
      (x : ℕ) → count x rows ≤ 1 → count x (dropped ++ without dropped rows) ≡ count x rows
  count-order x once =
      let d = count-dropped x in
      let w = count-without x dropped rows in
      let a = count-append x dropped (without dropped rows) in
      elim (Bool-cases (is_in x dropped)) [
        | inl i ↦
            let some_count = is_in-count x dropped i in
            elim (Bool-cases (is_in x (within rows drops))) [
              | inl e ↦ let there = is_in-count x rows (is_in-within x rows drops e) in ground arith
              | inr e ↦ ground arith
            ]
        | inr i ↦ let no_count = count-is_in x dropped i in ground arith
      ]

-- On a chain whose pipeline section names no row twice, `traced_consumption_order` returns a list of
-- the rows of that section, each exactly once and no other row, however often a row was dropped.
pub traced_consumption_order_lem :
    (chain : ModulusChain) (rows : List ℕ)
    → rows_of pipeline chain.section_rows ≡ some rows
    → ((x : ℕ) → count x rows ≤ 1)
    → (order : List ℕ) × (traced_consumption_order chain ≡ ok order)
      × ((x : ℕ) → count x order ≡ count x rows)
unfolding traced_consumption_order
traced_consumption_order_lem chain rows h once =
    let drops = reverse chain.drop_order in
    (
      dropped rows drops ++ without (dropped rows drops) rows,
      rw h,
      λ x. count-order rows drops x (once x),
    )
