-- ===== src/Tests/Drops.antt =====
-- Values at the levels of a small chain: drops and alignment.
use lattica_studio.Prelude.{ℕ, ◌*◌, ◌/◌, ◌≡◌, refl, List, [], ◌∷◌, none, some, true, ◌⊎◌, arith}
use lattica_studio.Prelude.Int.{pos, pos_part}
use lattica_studio.Prelude.Count.{count}
use lattica_studio.Result.{ok}
use lattica_studio.HomValue.{HomValue, post_init}
use lattica_studio.Chain.{ModulusChain, pipeline, rows_of, gather, is_in}
use lattica_studio.Levels.{
  Scales, factors_of_active_rows, active_factors, collect_cols, clear_cols, first_in_budget,
  get_drop_row_config, get_drop_cols_config, get_drop_config, get_config_for_row_or_col,
  dropped_levels, apply_drop_config, scaled_up, infer_optional_modswitch,
  infer_modswitch_by_num_levels,
}
use lattica_studio.Levels.Drop.{IsLevels}
use lattica_studio.Levels.Switch.{IsAt, Consumed, modswitch_one_level, modswitch_num_levels}
use lattica_studio.Operators.ModSwitch.{HomModSwitch, mod_switch_output_level}
use lattica_studio.Align.{
  traced_consumption_order, infer_adjust_levels_and_scale, verify_subset, verify_rows_cols,
  rows_covered, covered_none, is_subset, index_of, cols_covered,
}
use lattica_studio.Align.Lower.{IsLower, infer_adjust_lowers}
use lattica_studio.Align.Order.{traced_consumption_order_lem}
use lattica_studio.Torch.{Torch, prod}
use lattica_studio.Tests.Rows.{params, chain}

-- Scales as numbers, with a division that rounds down.
abbrev pub scales : Scales ℕ
scales = record { of_int = pos_part; mul = λ a b. a * b; decimal_div = λ a b. a / b }

abbrev pub torch : Torch
torch = record {
  broadcast_shapes = λ shapes. none;
  reshape = λ shape dims. none;
  prod_int64 = λ xs. pos (prod xs);
}

abbrev pub fresh : HomValue ℕ
fresh = record {
  id = none;
  tensor_shape = 4 ∷ [];
  n_axis = none;
  active_rows = some (0 ∷ 1 ∷ []);
  active_cols = some ((1 ∷ 0 ∷ []) ∷ (1 ∷ 1 ∷ []) ∷ []);
  pt_scale = 10;
  custom_input_ref = none;
  n_slots = none;
}

pub fresh-IsAt : IsAt fresh (0 ∷ 1 ∷ []) ((1 ∷ 0 ∷ []) ∷ (1 ∷ 1 ∷ []) ∷ [])
fresh-IsAt = record { rows_at = refl; cols_at = refl }

pub fresh-IsLevels : IsLevels (0 ∷ 1 ∷ []) ((1 ∷ 0 ∷ []) ∷ (1 ∷ 1 ∷ []) ∷ [])
fresh-IsLevels = record { same = refl; active = omega arith }

abbrev pub switched : HomValue ℕ
switched = record fresh { active_rows = some (1 ∷ []); active_cols = some ((1 ∷ 1 ∷ []) ∷ []) }

abbrev pub switched_chain : ModulusChain
switched_chain = record chain { drop_order = 0 ∷ [] }

switch_runs :
    infer_optional_modswitch scales torch params chain fresh true none none
    ≡ ok (switched_chain, switched)
unfolding infer_optional_modswitch get_config_for_row_or_col first_in_budget get_drop_config
    get_drop_row_config get_drop_cols_config factors_of_active_rows active_factors is_in
    collect_cols gather apply_drop_config dropped_levels clear_cols scaled_up post_init
switch_runs = refl

modswitch_one_level_example :
    Consumed 1 ((1 ∷ 0 ∷ []) ∷ (1 ∷ 1 ∷ []) ∷ []) chain switched_chain switched
modswitch_one_level_example =
    modswitch_one_level scales torch params none chain switched_chain fresh switched none
      (0 ∷ 1 ∷ []) ((1 ∷ 0 ∷ []) ∷ (1 ∷ 1 ∷ []) ∷ []) fresh-IsAt fresh-IsLevels switch_runs

abbrev pub twice : HomValue ℕ
twice = record fresh { active_rows = some (1 ∷ []); active_cols = some ((0 ∷ 1 ∷ []) ∷ []) }

abbrev pub twice_chain : ModulusChain
twice_chain = record chain { drop_order = 0 ∷ 1 ∷ [] }

two_run :
    infer_modswitch_by_num_levels scales torch params chain fresh 2 none ≡ ok (twice_chain, twice)
unfolding infer_modswitch_by_num_levels infer_optional_modswitch get_config_for_row_or_col
    first_in_budget get_drop_config get_drop_row_config get_drop_cols_config factors_of_active_rows
    active_factors is_in collect_cols gather apply_drop_config dropped_levels clear_cols scaled_up
    post_init
two_run = refl

modswitch_num_levels_example : Consumed 2 ((1 ∷ 0 ∷ []) ∷ (1 ∷ 1 ∷ []) ∷ []) chain twice_chain twice
modswitch_num_levels_example =
    modswitch_num_levels scales torch params none 2 chain twice_chain fresh twice (0 ∷ 1 ∷ [])
      ((1 ∷ 0 ∷ []) ∷ (1 ∷ 1 ∷ []) ∷ []) fresh-IsAt fresh-IsLevels two_run

pipeline_run : rows_of pipeline twice_chain.section_rows ≡ some (0 ∷ 1 ∷ [])
unfolding rows_of
pipeline_run = refl

traced_consumption_order_lem_example :
    (order : List ℕ) × (traced_consumption_order twice_chain ≡ ok order)
    × ((x : ℕ) → count x order ≡ count x (0 ∷ 1 ∷ []))
traced_consumption_order_lem_example =
    traced_consumption_order_lem twice_chain (0 ∷ 1 ∷ []) pipeline_run (λ x. ground arith)

switched-IsAt : IsAt switched (1 ∷ []) ((1 ∷ 1 ∷ []) ∷ [])
switched-IsAt = record { rows_at = refl; cols_at = refl }

adjust_run : infer_adjust_levels_and_scale fresh switched ≡ ok switched
unfolding infer_adjust_levels_and_scale verify_subset verify_rows_cols rows_covered covered_none
    is_subset is_in index_of cols_covered post_init
adjust_run = refl

infer_adjust_lowers_example :
    IsLower switched fresh
      (0 ∷ 1 ∷ [])
      ((1 ∷ 0 ∷ []) ∷ (1 ∷ 1 ∷ []) ∷ [])
      (1 ∷ [])
      ((1 ∷ 1 ∷ []) ∷ [])
    ⊎ IsLower switched switched
        (1 ∷ [])
        ((1 ∷ 1 ∷ []) ∷ [])
        (0 ∷ 1 ∷ [])
        ((1 ∷ 0 ∷ []) ∷ (1 ∷ 1 ∷ []) ∷ [])
infer_adjust_lowers_example =
    infer_adjust_lowers fresh switched switched (0 ∷ 1 ∷ []) (1 ∷ [])
      ((1 ∷ 0 ∷ []) ∷ (1 ∷ 1 ∷ []) ∷ []) ((1 ∷ 1 ∷ []) ∷ []) fresh-IsAt switched-IsAt adjust_run

-- Enough scale for both primes of row 1.
abbrev scaled : HomValue ℕ
scaled = record fresh { pt_scale = 17630 }

scaled-IsAt : IsAt scaled (0 ∷ 1 ∷ []) ((1 ∷ 0 ∷ []) ∷ (1 ∷ 1 ∷ []) ∷ [])
scaled-IsAt = record { rows_at = refl; cols_at = refl }

abbrev row_op : HomModSwitch
row_op = record { variant = 0; relative_row = 1; cols_to_drop = none }

abbrev col_op : HomModSwitch
col_op = record { variant = 1; relative_row = 1; cols_to_drop = some (0 ∷ []) }

abbrev row_dropped : HomValue ℕ
row_dropped = record fresh { active_rows = some (0 ∷ []); active_cols = some ((1 ∷ 0 ∷ []) ∷ []) }

abbrev col_dropped : HomValue ℕ
col_dropped = record fresh { active_cols = some ((1 ∷ 0 ∷ []) ∷ (0 ∷ 1 ∷ []) ∷ []); pt_scale = 410 }

abbrev row_1_chain : ModulusChain
row_1_chain = record chain { drop_order = 1 ∷ [] }

row_op_run :
    mod_switch_output_level scales torch chain scaled row_op ≡ ok (row_1_chain, row_dropped)
unfolding mod_switch_output_level get_drop_config get_drop_row_config factors_of_active_rows
    active_factors is_in apply_drop_config dropped_levels post_init
row_op_run = refl

col_op_run :
    mod_switch_output_level scales torch chain scaled col_op ≡ ok (row_1_chain, col_dropped)
unfolding mod_switch_output_level get_drop_config get_drop_cols_config factors_of_active_rows is_in
    collect_cols gather apply_drop_config dropped_levels clear_cols post_init
col_op_run = refl
