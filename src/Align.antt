-- ===== src/Align.antt =====
-- Aligning the levels of two values, fresh levels and the order of consumption: the second half of
-- lattica_build_src/lattica_build/params/level_and_scale_tracing.py.
pub mod Lower
pub mod Order
use mathlib.Core.List.{reverse}
use lattica_studio.Prelude.{
  ℕ, suc, List, [], ◌∷◌, ◌++◌, Option, none, some, Bool, true, false, not, ◌&&◌, ◌||◌, length,
  get_elem?, ltb, ◌==◌, if◌then◌else◌,
}
use lattica_studio.Result.{
  Result, ok, err, value_error, type_error, index_error, runtime_error, key_error, or_raise, ◌>>=◌,
}
use lattica_studio.HomValue.{HomValue, post_init}
use lattica_studio.Params.{HomParams}
use lattica_studio.Chain.{
  ModulusChain, pipeline, boot_base, boot_stc, rows_of, gather, is_in, without, get_init_rows,
}

-- The index of a row that is there (`argmax` of the matches, the first one).
unfoldable pub index_of : ℕ → List ℕ → ℕ
index_of target [] = 0
index_of target (row ∷ rows) = if row == target then 0 else suc (index_of target rows)

unfoldable pub is_subset : List ℕ → List ℕ → Bool
is_subset [] ys = true
is_subset (x ∷ xs) ys = is_in x ys && is_subset xs ys

-- `((1 - cols_1) + (cols_1 * cols_2)).all()` on a row of zeros and ones: every active column of the
-- first is active in the second. All rows of a chain have one width.
unfoldable pub cols_covered : List ℕ → List ℕ → Bool
cols_covered (c ∷ cs) (d ∷ ds) = (c == 0 || not (d == 0)) && cols_covered cs ds
cols_covered _ _ = true

-- `input_1`'s rows of columns against those of `input_2` at the same rows.
unfoldable pub rows_covered : List ℕ → List (List ℕ) → List ℕ → List (List ℕ) → Result Bool
unfolding index_of cols_covered
rows_covered (row ∷ rows) (c ∷ cols) rows_2 cols_2 = do
  d ← or_raise (get_elem? cols_2 (index_of row rows_2)) index_error
  rest ← rows_covered rows cols rows_2 cols_2
  ok (cols_covered c d && rest)
rows_covered _ _ rows_2 cols_2 = ok true

-- torch on a tensor with no entry: `argmax` over no row raises, and the shapes broadcast only where
-- the rows have at most one column.
unfoldable pub covered_none : List (List ℕ) → Result Bool
covered_none [] = err index_error
covered_none (d ∷ cols_2) = if ltb 1 (length d) then err runtime_error else ok true

unfoldable pub verify_rows_cols : List ℕ → List (List ℕ) → List ℕ → List (List ℕ) → Result Bool
unfolding rows_covered covered_none
verify_rows_cols [] cols_1 rows_2 cols_2 = covered_none cols_2
verify_rows_cols (row ∷ rows) cols_1 rows_2 cols_2 =
    if is_subset (row ∷ rows) rows_2
    then rows_covered (row ∷ rows) cols_1 rows_2 cols_2
    else ok false

module _ {S : Type 0} where
  -- `_verify_rows_cols_are_subset`
  unfoldable pub verify_subset : HomValue S → HomValue S → Result Bool
  verify_subset v w = do
    rows_1 ← or_raise v.active_rows type_error
    rows_2 ← or_raise w.active_rows type_error
    cols_1 ← or_raise v.active_cols runtime_error
    cols_2 ← or_raise w.active_cols runtime_error
    verify_rows_cols rows_1 cols_1 rows_2 cols_2

  abbrev pub adjusted : HomValue S → HomValue S → Bool → Bool → Result (HomValue S)
  adjusted v w true true = ok v
  adjusted v w true false = ok (post_init v)
  adjusted v w false true = ok (post_init w)
  adjusted v w false false = err value_error

  unfoldable pub infer_adjust_levels_and_scale : HomValue S → HomValue S → Result (HomValue S)
  unfolding post_init
  infer_adjust_levels_and_scale v w = do
    one_sub_of_two ← verify_subset v w
    two_sub_of_one ← verify_subset w v
    adjusted v w one_sub_of_two two_sub_of_one

  -- The value at some rows of the chain, all columns active.
  unfoldable pub at_rows : ModulusChain → HomValue S → List ℕ → Result (HomValue S)
  unfolding post_init
  at_rows chain v rows = do
    active_rows ← gather chain.full_active_rows rows
    active_cols ← gather chain.full_active_cols rows
    ok (post_init (record v { active_rows = some active_rows; active_cols = some active_cols }))

  unfoldable pub init_levels_after_bootstrap :
      ModulusChain → HomParams → HomValue S → Result (HomValue S)
  unfolding at_rows
  init_levels_after_bootstrap chain p v = do
    rows ← or_raise (rows_of pipeline chain.section_rows) key_error
    stc ← if p.slim_boot then or_raise (rows_of boot_stc chain.section_rows) key_error else ok []
    base ← or_raise (rows_of boot_base chain.section_rows) key_error
    at_rows chain v (rows ++ (stc ++ base))

unfoldable pub init_active_rows_cols : ModulusChain → HomParams → Result (List ℕ × List (List ℕ))
init_active_rows_cols chain p = do
  rows ← get_init_rows chain p
  active_rows ← gather chain.full_active_rows rows
  active_cols ← gather chain.full_active_cols rows
  ok (active_rows, active_cols)

-- `list(dict.fromkeys(xs))`, without the keys seen before
unfoldable pub from_keys : List ℕ → List ℕ → List ℕ
from_keys seen [] = []
from_keys seen (x ∷ xs) =
    let rest = from_keys seen xs in
    let more = from_keys (x ∷ seen) xs in if is_in x seen then rest else x ∷ more

-- The rows that stand in `pipeline`.
unfoldable pub within : List ℕ → List ℕ → List ℕ
within base [] = []
within base (row ∷ rows) =
    let rest = within base rows in if is_in row base then row ∷ rest else rest

unfoldable pub traced_consumption_order : ModulusChain → Result (List ℕ)
unfolding from_keys within
traced_consumption_order chain = do
  rows ← or_raise (rows_of pipeline chain.section_rows) key_error
  let dropped = reverse (from_keys [] (within rows (reverse chain.drop_order)))
  ok (dropped ++ without dropped rows)
