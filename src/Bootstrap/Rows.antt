-- ===== src/Bootstrap/Rows.antt =====
-- The rows of `get_q_list_precision` hold one prime of the given size for each level.
use mathlib.Core.List.{append_assoc}
use lattica_studio.Prelude.{lt→ltb}
use lattica_studio.Prelude.{
  ℕ, zero, suc, ◌+◌, ◌-◌, ◌*◌, ◌/◌, ◌%◌, ◌≤◌, ◌<◌, ◌≡◌, refl, ap, ◌∙◌, List, [], ◌∷◌, ◌++◌,
  replicate, arith, ltb, Bool-cases, inl, inr, ◌⊎◌,
}
use lattica_studio.Result.{ok, err, value_error, ◌>>=◌, >>=-eq-ok}
use lattica_studio.Primes.{QList, relative_precisions, precisions_needed}
use lattica_studio.Bootstrap.{get_q_list_precision}

replicate_add : (n m x : ℕ) → replicate n x ++ replicate m x ≡ replicate (n + m) x
replicate_add zero m x = let e : zero + m ≡ m = omega arith in rw e
replicate_add (suc n) m x =
    let e : suc n + m ≡ suc (n + m) = omega arith in rw e (ap (λ t. x ∷ t) (replicate_add n m x))

precisions-append :
    (qs rs : QList) {ps ks : List ℕ}
    → precisions_needed qs ≡ ok ps
    → precisions_needed rs ≡ ok ks
    → precisions_needed (qs ++ rs) ≡ ok (ps ++ ks)
unfolding precisions_needed
precisions-append [] rs {ps} {ks} h k = let e : ps ≡ [] = cc in rw (e, k)
precisions-append (row ∷ qs) rs {ps} {ks} h k =
    let (here, e, more) =
      >>=-eq-ok (relative_precisions row) (λ ps. do rest ← precisions_needed qs; ok (ps ++ rest))
        h in
    let (rest, f, g) = >>=-eq-ok (precisions_needed qs) (λ rest. ok (here ++ rest)) more in
    let same : ps ≡ here ++ rest = cc in rw (e, precisions-append qs rs f k, same, append_assoc)

double_rows :
    (n s : ℕ) → 0 < s → precisions_needed (replicate n (2 * s ∷ s ∷ [])) ≡ ok (replicate (n * 2) s)
unfolding precisions_needed relative_precisions
double_rows zero s h = refl
double_rows (suc n) s h =
    let e : suc n * 2 ≡ suc (suc (n * 2)) = omega arith in
    let d : 2 * s - s ≡ s = omega arith in
    rw (lt→ltb s (2 * s) (omega arith), double_rows n s h, e, d)

single_rows : (n s : ℕ) → precisions_needed (replicate n (s ∷ [])) ≡ ok (replicate n s)
unfolding precisions_needed relative_precisions
single_rows zero s = refl
single_rows (suc n) s = rw (single_rows n s)

-- For a prime size from 25 to 62 bits and one level or more, the rows need exactly one prime of that
-- size for each level, in rows that the assignment of primes accepts; any other argument raises
-- ValueError.
pub level_rows :
    (scale levels : ℕ)
    → (25 ≤ scale
        → scale ≤ 62
        → 1 ≤ levels
        → (q : List (List ℕ)) × (get_q_list_precision scale levels ≡ ok q)
          × (precisions_needed q ≡ ok (replicate levels scale)))
      × ((scale < 25) ⊎ (62 < scale) ⊎ (levels ≡ 0)
          → get_q_list_precision scale levels ≡ err value_error)
unfolding get_q_list_precision
level_rows scale levels = (
  λ lo hi some_level. elim (Bool-cases (ltb scale 32)) [
    | inl small ↦ (
      replicate (levels / 2) (2 * scale ∷ scale ∷ []) ++ replicate (levels % 2) (scale ∷ []),
      ground arith,
      precisions-append (replicate (levels / 2) (2 * scale ∷ scale ∷ []))
            (replicate (levels % 2) (scale ∷ [])) (double_rows (levels / 2) scale (omega arith))
            (single_rows (levels % 2) scale)
          ∙ ap ok (replicate_add (levels / 2 * 2) (levels % 2) scale)
          ∙ ap (λ n. ok (replicate n scale)) (omega arith),
    )
    | inr large ↦ (replicate levels (scale ∷ []), ground arith, single_rows levels scale)
  ],
  λ bad. ground arith,
)
