-- ===== src/Tests/Products.antt =====
-- Operators at the levels of a small chain.
use lattica_studio.Prelude.{
  get_elem?, ◌≡◌, refl, [], ◌∷◌, none, some, arith, true, false, ◌⊎◌, ℕ, ◌^◌, ◌≤◌, ◌<◌, ◌+◌,
}
use lattica_studio.Result.{ok}
use lattica_studio.HomValue.{HomValue, post_init, copy_shape, copy_shape_axis, to_pos_axis}
use lattica_studio.Levels.{
  factors_of_active_rows, active_factors, collect_cols, clear_cols, first_in_budget,
  get_drop_row_config, get_drop_cols_config, get_drop_config, get_config_for_row_or_col,
  dropped_levels, apply_drop_config, scaled_up, infer_optional_modswitch,
  infer_modswitch_by_num_levels,
}
use lattica_studio.Levels.Switch.{Consumed}
use lattica_studio.Chain.{gather, is_in}
use lattica_studio.Align.{
  infer_adjust_levels_and_scale, verify_subset, verify_rows_cols, rows_covered, is_subset, index_of,
  cols_covered,
}
use lattica_studio.Align.Lower.{IsBelow}
use lattica_studio.Operators.Arithmetic.{HomMul, copy_scale, mul_output_level}
use lattica_studio.Operators.Consuming.{mul_consumes_one}
use lattica_studio.Operators.Evaluation.{
  HomExpand, expand_output_shape, HomPolyEvalBase, least_power, ceil_log2, num_coefs,
  poly_output_level,
}
use lattica_studio.Prelude.Int.{pos, negsuc, ◌+ℤ◌}
use lattica_studio.Shape.{infer_insert_axis_output_shape}
use lattica_studio.Operators.Expanding.{expanded, expand_negative_misplaced}
use lattica_studio.Operators.Depth.{poly_depth}
use lattica_studio.Tests.Rows.{params, chain}
use lattica_studio.Tests.Drops.{
  scales, torch, fresh, fresh-IsAt, fresh-IsLevels, switched, switched_chain, twice, twice_chain,
}

abbrev product : HomMul
product = record { axis_sum = none; keep_axis = false; with_modswitch = true; rows_budget = none }

-- The scale of the product, over the prime of the dropped row.
abbrev multiplied : HomValue ℕ
multiplied = record switched { pt_scale = 2 }

product_run :
    mul_output_level scales torch params chain product fresh fresh ≡ ok (switched_chain, multiplied)
unfolding mul_output_level infer_adjust_levels_and_scale verify_subset verify_rows_cols rows_covered
    is_subset index_of cols_covered copy_scale infer_optional_modswitch get_config_for_row_or_col
    first_in_budget get_drop_config get_drop_row_config get_drop_cols_config factors_of_active_rows
    active_factors is_in collect_cols gather apply_drop_config dropped_levels clear_cols scaled_up
    post_init
product_run = refl

mul_consumes_one_example :
    (IsBelow
        (0 ∷ 1 ∷ [])
        ((1 ∷ 0 ∷ []) ∷ (1 ∷ 1 ∷ []) ∷ [])
        (0 ∷ 1 ∷ [])
        ((1 ∷ 0 ∷ []) ∷ (1 ∷ 1 ∷ []) ∷ [])
      × Consumed 1 ((1 ∷ 0 ∷ []) ∷ (1 ∷ 1 ∷ []) ∷ []) chain switched_chain multiplied)
    ⊎ (IsBelow
          (0 ∷ 1 ∷ [])
          ((1 ∷ 0 ∷ []) ∷ (1 ∷ 1 ∷ []) ∷ [])
          (0 ∷ 1 ∷ [])
          ((1 ∷ 0 ∷ []) ∷ (1 ∷ 1 ∷ []) ∷ [])
        × Consumed 1 ((1 ∷ 0 ∷ []) ∷ (1 ∷ 1 ∷ []) ∷ []) chain switched_chain multiplied)
mul_consumes_one_example =
    mul_consumes_one scales torch params product chain switched_chain fresh fresh multiplied
      (0 ∷ 1 ∷ []) (0 ∷ 1 ∷ []) ((1 ∷ 0 ∷ []) ∷ (1 ∷ 1 ∷ []) ∷ [])
      ((1 ∷ 0 ∷ []) ∷ (1 ∷ 1 ∷ []) ∷ []) refl fresh-IsAt fresh-IsAt fresh-IsLevels fresh-IsLevels
      product_run

abbrev polynomial : HomPolyEvalBase
polynomial = record { coefs_shape = 2 ∷ []; is_rescaled = true; rows_budget = none }

polynomial_run :
    poly_output_level scales torch params chain polynomial fresh ≡ ok (twice_chain, twice)
unfolding poly_output_level num_coefs ceil_log2 least_power infer_modswitch_by_num_levels
    infer_optional_modswitch get_config_for_row_or_col first_in_budget get_drop_config
    get_drop_row_config get_drop_cols_config factors_of_active_rows active_factors is_in
    collect_cols gather apply_drop_config dropped_levels clear_cols scaled_up post_init
polynomial_run = refl

poly_depth_example :
    (n depth : ℕ) × (num_coefs polynomial.coefs_shape ≡ ok n)
    × (n ≤ 2 ^ depth)
    × ((j : ℕ) → j < depth → 2 ^ j < n)
    × Consumed (1 + depth) ((1 ∷ 0 ∷ []) ∷ (1 ∷ 1 ∷ []) ∷ []) chain twice_chain twice
poly_depth_example =
    poly_depth scales torch params polynomial chain twice_chain fresh twice (0 ∷ 1 ∷ [])
      ((1 ∷ 0 ∷ []) ∷ (1 ∷ 1 ∷ []) ∷ []) fresh-IsAt fresh-IsLevels polynomial_run

abbrev expanding : HomExpand
expanding = record {
  expand_axis = negsuc 0;
  stage_sizes = none;
  stages_per_level = none;
  rows_budget = none;
}

abbrev vector : HomValue ℕ
vector = record fresh { n_axis = some (pos 0); n_slots = some 4 }

-- The new axis of 4 stands first, before the slot axis, which has the ring's 8.
vector_run :
    expand_output_shape (some 8) expanding vector
    ≡ ok (record vector { tensor_shape = 4 ∷ 8 ∷ []; n_axis = some (pos 1) })
unfolding expand_output_shape infer_insert_axis_output_shape copy_shape copy_shape_axis post_init
    to_pos_axis ◌+ℤ◌
vector_run = refl

expand_negative_misplaced_example :
    (expand_output_shape (some 8) expanding vector ≡ ok (expanded vector 0 4 (some 8)))
    × (get_elem? (expanded vector 0 4 (some 8)).tensor_shape 0 ≡ some 4)
    × (to_pos_axis (negsuc 0) (expanded vector 0 4 (some 8)).tensor_shape ≡ pos 1)
expand_negative_misplaced_example =
    expand_negative_misplaced (some 8) expanding vector 0 4 (omega arith) (omega arith) refl refl
