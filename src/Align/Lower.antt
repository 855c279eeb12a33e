-- ===== src/Align/Lower.antt =====
-- `infer_adjust_levels_and_scale` takes the lower of the two inputs' levels.
use lattica_studio.Prelude.{
  ℕ, zero, suc, ◌≡◌, refl, sym, ap, ◌∙◌, List, [], ◌∷◌, some, Bool, true, false, ◌⊎◌, inl, inr,
  arith, get_elem?, Option-cases,
}
use lattica_studio.Result.{ok, >>=-eq-ok, Result-cases}
use lattica_studio.HomValue.{HomValue, post_init}
use lattica_studio.Chain.{is_in}
use lattica_studio.Levels.Switch.{IsAt}
use lattica_studio.Align.{
  index_of, is_subset, cols_covered, rows_covered, verify_rows_cols, verify_subset, adjusted,
  infer_adjust_levels_and_scale,
}

-- Every row is a row of the second as well, and what is active in it is active there.
abbrev pub IsBelow : List ℕ → List (List ℕ) → List ℕ → List (List ℕ) → Type 0
IsBelow rows cols rows_2 cols_2 =
    (i row : ℕ) (c : List ℕ)
    → get_elem? rows i ≡ some row
    → get_elem? cols i ≡ some c
    → (j : ℕ) × (d : List ℕ) × (get_elem? rows_2 j ≡ some row)
      × (get_elem? cols_2 j ≡ some d)
      × ((k a : ℕ) → get_elem? c k ≡ some a → get_elem? d k ≡ some 0 → a ≡ 0)

cols_covered_lem :
    (c d : List ℕ) (k a : ℕ)
    → cols_covered c d ≡ true
    → get_elem? c k ≡ some a
    → get_elem? d k ≡ some 0
    → a ≡ 0
unfolding cols_covered
cols_covered_lem [] d k a h e e2 = cc
cols_covered_lem (x ∷ c) [] k a h e e2 = cc
cols_covered_lem (x ∷ c) (y ∷ d) zero a h e e2 = ground arith
cols_covered_lem (x ∷ c) (y ∷ d) (suc k) a h e e2 =
    let more = cols_covered_lem c d k a in ground arith

index_of_lem : (x : ℕ) (ys : List ℕ) → is_in x ys ≡ true → get_elem? ys (index_of x ys) ≡ some x
unfolding index_of is_in
index_of_lem x [] h = cc
index_of_lem x (y ∷ ys) h = let more = index_of_lem x ys in ground arith

-- A row that is covered has its index in the second value, and the rows after it are covered.
covered_row :
    (row : ℕ) (rows : List ℕ) (c : List ℕ) (cols : List (List ℕ)) (rows_2 : List ℕ)
    (cols_2 : List (List ℕ))
    → rows_covered (row ∷ rows) (c ∷ cols) rows_2 cols_2 ≡ ok true
    → (d : List ℕ) × (get_elem? cols_2 (index_of row rows_2) ≡ some d)
      × (cols_covered c d ≡ true)
      × (rows_covered rows cols rows_2 cols_2 ≡ ok true)
unfolding rows_covered
covered_row row rows c cols rows_2 cols_2 h =
    elim (Option-cases (get_elem? cols_2 (index_of row rows_2))) [
      | inl e ↦ ground arith
      | inr (d, e) ↦ elim (Result-cases (rows_covered rows cols rows_2 cols_2)) [
        | inl (b, e2) ↦ (d, e, ground arith, ground arith)
        | inr (x, e2) ↦ ground arith
      ]
    ]

rows_covered_lem :
    (rows : List ℕ) (cols : List (List ℕ)) (rows_2 : List ℕ) (cols_2 : List (List ℕ))
    → is_subset rows rows_2 ≡ true
    → rows_covered rows cols rows_2 cols_2 ≡ ok true
    → IsBelow rows cols rows_2 cols_2
unfolding is_subset
rows_covered_lem [] cols rows_2 cols_2 s h i row c e e2 = cc
rows_covered_lem (r ∷ rows) [] rows_2 cols_2 s h i row c e e2 = cc
rows_covered_lem (r ∷ rows) (c' ∷ cols) rows_2 cols_2 s h zero row c e e2 =
    let (d, there, covered, rest) = covered_row r rows c' cols rows_2 cols_2 h in
    let same_row : r ≡ row = cc in
    let same_cols : c' ≡ c = cc in
    (
      index_of r rows_2,
      d,
      index_of_lem r rows_2 (ground arith) ∙ ap some same_row,
      there,
      λ k a. cols_covered_lem c d k a (rw same_cols at covered),
    )
rows_covered_lem (r ∷ rows) (c' ∷ cols) rows_2 cols_2 s h (suc i) row c e e2 =
    let (d, there, covered, rest) = covered_row r rows c' cols rows_2 cols_2 h in
    rows_covered_lem rows cols rows_2 cols_2 (ground arith) rest i row c e e2

verify_rows_cols_lem :
    (rows : List ℕ) (cols : List (List ℕ)) (rows_2 : List ℕ) (cols_2 : List (List ℕ))
    → verify_rows_cols rows cols rows_2 cols_2 ≡ ok true
    → IsBelow rows cols rows_2 cols_2
unfolding verify_rows_cols
verify_rows_cols_lem [] cols rows_2 cols_2 h = λ i row c e e2. cc
verify_rows_cols_lem (r ∷ rows) cols rows_2 cols_2 h =
    rows_covered_lem (r ∷ rows) cols rows_2 cols_2 (ground arith) (ground arith)

module _ {S : Type 0} where
  -- `out` has the levels and the scale of `v`, which is at or below the rows and columns of the other.
  abbrev pub IsLower :
      HomValue S → HomValue S → List ℕ → List (List ℕ) → List ℕ → List (List ℕ) → Type 0
  IsLower out v rows cols rows_2 cols_2 =
      IsAt out rows cols × (out.pt_scale ≡ v.pt_scale) × IsBelow rows cols rows_2 cols_2

  verify_subset-at :
      (v w : HomValue S) (rows_1 rows_2 : List ℕ) (cols_1 cols_2 : List (List ℕ))
      → IsAt v rows_1 cols_1
      → IsAt w rows_2 cols_2
      → verify_subset v w ≡ verify_rows_cols rows_1 cols_1 rows_2 cols_2
  unfolding verify_subset
  verify_subset-at v w rows_1 rows_2 cols_1 cols_2 a b =
      rw (a.rows_at, a.cols_at, b.rows_at, b.cols_at) refl

  -- `out` is `v` or a copy of it.
  abbrev Same : HomValue S → HomValue S → Type 0
  Same out v =
      (out.active_rows ≡ v.active_rows)
      × (out.active_cols ≡ v.active_cols)
      × (out.pt_scale ≡ v.pt_scale)

  adjusted-cases :
      (v w out : HomValue S) (one two : Bool)
      → adjusted v w one two ≡ ok out
      → ((one ≡ true) × Same out v) ⊎ ((two ≡ true) × Same out w)
  unfolding post_init
  adjusted-cases v w out true true h = inl (refl, (ground arith, ground arith, ground arith))
  adjusted-cases v w out true false h = inl (refl, (ground arith, ground arith, ground arith))
  adjusted-cases v w out false true h = inr (refl, (ground arith, ground arith, ground arith))
  adjusted-cases v w out false false h = cc

  lower :
      (out v w : HomValue S) (rows_1 rows_2 : List ℕ) (cols_1 cols_2 : List (List ℕ))
      → IsAt v rows_1 cols_1
      → IsAt w rows_2 cols_2
      → Same out v
      → verify_subset v w ≡ ok true
      → IsLower out v rows_1 cols_1 rows_2 cols_2
  lower out v w rows_1 rows_2 cols_1 cols_2 a b (rows, cols, scale) e = (
    record { rows_at = rows ∙ a.rows_at; cols_at = cols ∙ a.cols_at },
    scale,
    verify_rows_cols_lem rows_1 cols_1 rows_2 cols_2
        (sym (verify_subset-at v w rows_1 rows_2 cols_1 cols_2 a b) ∙ e),
  )

  -- Two values with levels: what `infer_adjust_levels_and_scale` returns has the rows, the columns and
  -- the scale of one of them, and every row of that one is a row of the other, where all its active
  -- columns are active too.
  pub infer_adjust_lowers :
      (v w out : HomValue S) (rows_1 rows_2 : List ℕ) (cols_1 cols_2 : List (List ℕ))
      → IsAt v rows_1 cols_1
      → IsAt w rows_2 cols_2
      → infer_adjust_levels_and_scale v w ≡ ok out
      → IsLower out v rows_1 cols_1 rows_2 cols_2 ⊎ IsLower out w rows_2 cols_2 rows_1 cols_1
  unfolding infer_adjust_levels_and_scale
  infer_adjust_lowers v w out rows_1 rows_2 cols_1 cols_2 a b h =
      let (one, e, h2) = >>=-eq-ok (verify_subset v w) _ h in
      let (two, e2, h3) = >>=-eq-ok (verify_subset w v) _ h2 in
      elim (adjusted-cases v w out one two h3) [
        | inl (one_true, same) ↦
            inl (lower out v w rows_1 rows_2 cols_1 cols_2 a b same (e ∙ ap ok one_true))
        | inr (two_true, same) ↦
            inr (lower out w v rows_2 rows_1 cols_2 cols_1 b a same (e2 ∙ ap ok two_true))
      ]
