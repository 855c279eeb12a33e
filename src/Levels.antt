-- ===== src/Levels.antt =====
-- The level and scale rules of lattica_build_src/lattica_build/params/level_and_scale_tracing.py. A
-- drop appends to the chain's `drop_order`, so these functions return the chain beside the value.
pub mod Drop
pub mod Config
pub mod Switch
use mathlib.Core.List.{reverse}
use lattica_studio.Prelude.{
  ℕ, zero, suc, ◌+◌, ◌-◌, ◌*◌, ◌≡◌, List, [], ◌∷◌, ◌++◌, Option, none, some, Bool, true, false, not,
  ◌&&◌, ◌||◌, length, take, drop, set, get_elem?, ltb, ◌==◌, if◌then◌else◌, map,
}
use lattica_studio.Prelude.Int.{ℤ, pos}
use lattica_studio.Result.{
  Result, ok, err, value_error, type_error, index_error, runtime_error, key_error, raise_if,
  or_raise, ◌>>=◌, ◌>>◌,
}
use lattica_studio.Torch.{Torch}
use lattica_studio.HomValue.{HomValue, post_init}
use lattica_studio.Params.{HomParams}
use lattica_studio.Chain.{
  ModulusChain, pipeline, boot_base, boot_stc, rows_of, gather, is_in, without, get_init_rows,
}

-- Python's arithmetic of plaintext scales: ints enter by `of_int`, `*` multiplies, and
-- `Decimal(a) / Decimal(b)` divides, rounding as the decimal context says.
pub record Scales (S : Type 0) : Type 0 where
  pub of_int : ℤ → S
  pub mul : S → S → S
  pub decimal_div : S → S → S

pub record DropConfig : Type 0 where
  pub relative_row : ℕ
  pub cols_to_drop : Option (List ℕ)
  pub scale_down_by : ℤ

abbrev pub sum_cols : List ℕ → ℕ
sum_cols [] = 0
sum_cols (x ∷ xs) = x + sum_cols xs

-- `[row_factors for i, row_factors in enumerate(factors_per_row) if i in active_rows]`, from row `i`
unfoldable pub factors_of_active_rows : ℕ → List (List ℕ) → List ℕ → List (List ℕ)
factors_of_active_rows i [] active_rows = []
factors_of_active_rows i (fs ∷ factors) active_rows =
    let rest = factors_of_active_rows (suc i) factors active_rows in
    if is_in i active_rows then fs ∷ rest else rest

-- The factors whose column is active; a row of factors is no longer than a row of columns.
unfoldable pub active_factors : List ℕ → List ℕ → Result (List ℕ)
active_factors [] cols = ok []
active_factors (p ∷ factors) [] = err index_error
active_factors (p ∷ factors) (c ∷ cols) = do
  rest ← active_factors factors cols
  ok (if c == 1 then p ∷ rest else rest)

-- `[i for i, is_active in enumerate(cols) if is_active]`, cut off when `num` are found
unfoldable pub collect_cols : ℕ → List ℕ → ℕ → List ℕ → List ℕ
collect_cols i found num [] = found
collect_cols i found num (c ∷ cols) =
    let found' = if c == 0 then found else found ++ i ∷ [] in
    let rest = collect_cols (suc i) found' num cols in if length found' == num then found' else rest

-- A column of a row set to 0.
unfoldable pub clear_cols : List ℕ → List ℕ → Result (List ℕ)
clear_cols row [] = ok row
clear_cols row (col ∷ cols) = do
  raise_if (not (ltb col (length row))) index_error
  clear_cols (set row col 0) cols

abbrev pub without_row {ℓ} : {A : Type ℓ} → List A → ℕ → List A
without_row xs row = take row xs ++ drop (row + 1) xs

-- `rows_budget is not None and abs_row_idx not in rows_budget`
abbrev pub is_skipped : Option (List ℕ) → ℕ → Bool
is_skipped none row = false
is_skipped (some budget) row = not (is_in row budget)

-- The loop of `_get_config_for_row_or_col`: the relative index of the first row of the budget.
unfoldable pub first_in_budget : ℕ → List ℕ → Option (List ℕ) → Option ℕ
first_in_budget i [] budget = none
first_in_budget i (row ∷ rows) budget =
    if is_skipped budget row then first_in_budget (suc i) rows budget else some i

module _ (torch : Torch) where
  unfoldable pub get_drop_row_config : ModulusChain → List ℕ → ℕ → List ℕ → Result DropConfig
  get_drop_row_config chain active_rows row active_cols_in_chosen_row = do
    factors ←
        or_raise (get_elem? (factors_of_active_rows 0 chain.factors_per_row active_rows) row)
          index_error
    active ← active_factors factors active_cols_in_chosen_row
    ok (record { relative_row = row; cols_to_drop = none; scale_down_by = torch.prod_int64 active })

  unfoldable pub get_drop_cols_config : ModulusChain → List ℕ → ℕ → List ℕ → Result DropConfig
  get_drop_cols_config chain active_rows row cols = do
    factors ←
        or_raise (get_elem? (factors_of_active_rows 0 chain.factors_per_row active_rows) row)
          index_error
    dropped ← gather factors cols
    ok (record {
      relative_row = row;
      cols_to_drop = some cols;
      scale_down_by = torch.prod_int64 dropped;
    })

  -- `_get_drop_config_for_x_levels_in_a_given_row`
  unfoldable pub get_drop_config : ModulusChain → List ℕ → List (List ℕ) → ℕ → ℕ → Result DropConfig
  get_drop_config chain active_rows active_cols row num = do
    cols ← or_raise (get_elem? active_cols row) index_error
    if sum_cols cols == num
        then get_drop_row_config chain active_rows row cols
        else get_drop_cols_config chain active_rows row (collect_cols 0 [] num cols)

  -- `_get_config_for_row_or_col`; `active_cols` is read only where a row is found.
  unfoldable pub get_config_for_row_or_col :
      ModulusChain → List ℕ → Option (List (List ℕ)) → Option (List ℕ) → Result DropConfig
  get_config_for_row_or_col chain active_rows active_cols rows_budget = do
    row ← or_raise (first_in_budget 0 active_rows rows_budget) value_error
    cols ← or_raise active_cols type_error
    get_drop_config chain active_rows cols row 1

module _ {S : Type 0} (scales : Scales S) where
  -- The rows and columns after a drop.
  unfoldable pub dropped_levels :
      List ℕ → List (List ℕ) → ℕ → Option (List ℕ) → Result (List ℕ × List (List ℕ))
  dropped_levels rows cols row none = ok (without_row rows row, without_row cols row)
  dropped_levels rows cols row (some cols_to_drop) = do
    old ← or_raise (get_elem? cols row) index_error
    new ← clear_cols old cols_to_drop
    ok (rows, set cols row new)

  unfoldable pub apply_drop_config :
      ModulusChain → HomValue S → DropConfig → Result (ModulusChain × HomValue S)
  unfolding dropped_levels post_init
  apply_drop_config chain v config = do
    rows ← or_raise v.active_rows type_error
    dropped ← or_raise (get_elem? rows config.relative_row) index_error
    cols ← or_raise v.active_cols type_error
    (new_rows, new_cols) ← dropped_levels rows cols config.relative_row config.cols_to_drop
    ok (
      record chain { drop_order = chain.drop_order ++ dropped ∷ [] },
      post_init (record v {
        active_rows = some new_rows;
        active_cols = some new_cols;
        pt_scale = scales.decimal_div v.pt_scale (scales.of_int config.scale_down_by);
      }),
    )

  -- `make_copy(pt_scale=input.pt_scale * op_scale_up)`
  unfoldable pub scaled_up : HomValue S → S → HomValue S
  unfolding post_init
  scaled_up v up = post_init (record v { pt_scale = scales.mul v.pt_scale up })

  abbrev pub or_int : Option S → ℤ → S
  or_int none k = scales.of_int k
  or_int (some up) k = up

  unfoldable pub infer_optional_modswitch :
      Torch
      → HomParams
      → ModulusChain
      → HomValue S
      → Bool
      → Option (List ℕ)
      → Option S
      → Result (ModulusChain × HomValue S)
  unfolding scaled_up
  infer_optional_modswitch torch p chain v false rows_budget op_scale_up =
      ok (chain, scaled_up v (or_int op_scale_up (pos p.pt_scale)))
  infer_optional_modswitch torch p chain v true rows_budget op_scale_up = do
    rows ← or_raise v.active_rows type_error
    config ← get_config_for_row_or_col torch chain rows v.active_cols rows_budget
    apply_drop_config chain (scaled_up v (or_int op_scale_up config.scale_down_by)) config

  unfoldable pub infer_modswitch_by_num_levels :
      Torch
      → HomParams
      → ModulusChain
      → HomValue S
      → ℕ
      → Option (List ℕ)
      → Result (ModulusChain × HomValue S)
  infer_modswitch_by_num_levels torch p chain v zero rows_budget = ok (chain, v)
  infer_modswitch_by_num_levels torch p chain v (suc num_levels) rows_budget = do
    (chain', v') ← infer_optional_modswitch torch p chain v true rows_budget none
    infer_modswitch_by_num_levels torch p chain' v' num_levels rows_budget
