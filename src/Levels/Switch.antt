-- ===== src/Levels/Switch.antt =====
-- A modulus switch consumes one level.
use mathlib.Core.List.{append-nil, append_assoc}
use lattica_studio.Prelude.{
  ℕ, zero, suc, ◌+◌, ◌≡◌, refl, ap, ◌∙◌, List, [], ◌∷◌, ◌++◌, Option, none, some, true, length,
  length-append, get_elem?, arith, inl, inr, Option-cases,
}
use lattica_studio.Result.{ok, Result-cases, >>=-eq-ok}
use lattica_studio.Torch.{Torch}
use lattica_studio.HomValue.{HomValue, post_init}
use lattica_studio.Params.{HomParams}
use lattica_studio.Chain.{ModulusChain}
use lattica_studio.Levels.{
  Scales, DropConfig, get_drop_config, get_config_for_row_or_col, first_in_budget, dropped_levels,
  apply_drop_config, scaled_up, or_int, infer_optional_modswitch, infer_modswitch_by_num_levels,
}
use lattica_studio.Levels.Drop.{IsLevels, OneLess, total, drop_row, drop_col}
use lattica_studio.Levels.Config.{config-ok}

-- A value at `rows` and `cols`.
pub record IsAt {S : Type 0} (v : HomValue S) (rows : List ℕ) (cols : List (List ℕ)) : Type 0 where
  pub rows_at : v.active_rows ≡ some rows
  pub cols_at : v.active_cols ≡ some cols

module _ {S : Type 0} (scales : Scales S) where
  pub apply-ok :
      (chain chain' : ModulusChain) (v v' : HomValue S) (config : DropConfig) (rows : List ℕ)
      (cols : List (List ℕ))
      → IsAt v rows cols
      → apply_drop_config scales chain v config ≡ ok (chain', v')
      → (row : ℕ) × (rows' : List ℕ) × (cols' : List (List ℕ)) × (get_elem? rows config.relative_row
          ≡ some row)
        × (dropped_levels scales rows cols config.relative_row config.cols_to_drop
            ≡ ok (rows', cols'))
        × (chain'.drop_order ≡ chain.drop_order ++ row ∷ [])
        × IsAt v' rows' cols'
  unfolding apply_drop_config post_init
  apply-ok chain chain' v v' config rows cols at h =
      let r = at.rows_at in
      let c = at.cols_at in
      elim (Option-cases (get_elem? rows config.relative_row)) [
        | inl e ↦ ground arith
        | inr (row, e) ↦
            elim (Result-cases
              (dropped_levels scales rows cols config.relative_row config.cols_to_drop)) [
                | inl (new, e2) ↦ (
                  row,
                  new.0,
                  new.1,
                  e,
                  e2,
                  ground arith,
                  record { rows_at = ground arith; cols_at = ground arith },
                )
                | inr (x, e2) ↦ ground arith
              ]
      ]

module _ {S : Type 0} where
  -- After `n` levels are consumed: the levels that are left, and the rows that the chain has recorded.
  pub record Consumed (n : ℕ) (cols : List (List ℕ)) (chain chain' : ModulusChain) (v' : HomValue S)
      : Type 0 where
    pub rows_left : List ℕ
    pub cols_left : List (List ℕ)
    pub left_at : IsAt v' rows_left cols_left
    pub left_levels : IsLevels rows_left cols_left
    pub fewer : total cols_left + n ≡ total cols
    pub recorded : List ℕ
    pub drops : chain'.drop_order ≡ chain.drop_order ++ recorded
    pub one_each : length recorded ≡ n

  -- `n` levels, then `m` more.
  pub Consumed-add :
      (n m k : ℕ) (cols : List (List ℕ)) (chain c1 chain' : ModulusChain) (v1 v' : HomValue S)
      (one : Consumed n cols chain c1 v1)
      → Consumed m one.cols_left c1 chain' v'
      → n + m ≡ k
      → Consumed k cols chain chain' v'
  Consumed-add n m k cols chain c1 chain' v1 v' one more e = record {
    rows_left = more.rows_left;
    cols_left = more.cols_left;
    left_at = more.left_at;
    left_levels = more.left_levels;
    fewer = omega (arith, one.fewer, more.fewer);
    recorded = one.recorded ++ more.recorded;
    drops =
        more.drops
        ∙ ap (λ l. l ++ more.recorded) one.drops
        ∙ append_assoc chain.drop_order one.recorded more.recorded;
    one_each = rw length-append (omega (arith, one.one_each, more.one_each));
  }

module _ {S : Type 0} (scales : Scales S) (torch : Torch) where
  pub one-less :
      (chain : ModulusChain) (rows : List ℕ) (cols : List (List ℕ)) (row : ℕ) (config : DropConfig)
      → IsLevels rows cols
      → get_drop_config torch chain rows cols row 1 ≡ ok config
      → OneLess rows cols (dropped_levels scales rows cols config.relative_row config.cols_to_drop)
  one-less chain rows cols row config levels h =
      let (c, at, same, which) = config-ok torch chain rows cols row config h in
      elim which [
        | inl (one, e) ↦ rw (same, e) (drop_row scales rows cols row c at levels one)
        | inr (more, e) ↦ rw (same, e) (drop_col scales rows cols row c at levels more)
      ]

module _ {S : Type 0} (scales : Scales S) (torch : Torch) (p : HomParams)
    (budget : Option (List ℕ)) where
  budget-ok :
      (chain : ModulusChain) (rows : List ℕ) (cols : List (List ℕ)) (config : DropConfig)
      → get_config_for_row_or_col torch chain rows (some cols) budget ≡ ok config
      → (row : ℕ) × (get_drop_config torch chain rows cols row 1 ≡ ok config)
  unfolding get_config_for_row_or_col
  budget-ok chain rows cols config h = elim (Option-cases (first_in_budget 0 rows budget)) [
    | inl e ↦ ground arith
    | inr (row, e) ↦ (row, ground arith)
  ]

  switch-ok :
      (chain chain' : ModulusChain) (v v' : HomValue S) (up : Option S) (rows : List ℕ)
      (cols : List (List ℕ))
      → IsAt v rows cols
      → infer_optional_modswitch scales torch p chain v true budget up ≡ ok (chain', v')
      → (config : DropConfig) × (get_config_for_row_or_col torch chain rows (some cols) budget
          ≡ ok config)
        × (apply_drop_config scales chain
              (scaled_up scales v (or_int scales up config.scale_down_by))
              config
            ≡ ok (chain', v'))
  unfolding infer_optional_modswitch
  switch-ok chain chain' v v' up rows cols at h =
      let r = at.rows_at in
      let c = at.cols_at in
      elim (Result-cases (get_config_for_row_or_col torch chain rows (some cols) budget)) [
        | inl (config, e) ↦ (config, e, ground arith)
        | inr (x, e) ↦ ground arith
      ]

  scaled_up-IsAt :
      (v : HomValue S) (up : S) (rows : List ℕ) (cols : List (List ℕ))
      → IsAt v rows cols
      → IsAt (scaled_up scales v up) rows cols
  unfolding scaled_up post_init
  scaled_up-IsAt v up rows cols at = record { rows_at = at.rows_at; cols_at = at.cols_at }

  -- On a value whose active rows and columns agree, an `infer_optional_modswitch` that switches and
  -- returns has consumed exactly one level: the value it returns again has active rows and columns
  -- that agree, with one active column fewer in all, and one row is added to the drop order.
  pub modswitch_one_level :
      (chain chain' : ModulusChain) (v v' : HomValue S) (up : Option S) (rows : List ℕ)
      (cols : List (List ℕ))
      → IsAt v rows cols
      → IsLevels rows cols
      → infer_optional_modswitch scales torch p chain v true budget up ≡ ok (chain', v')
      → Consumed 1 cols chain chain' v'
  modswitch_one_level chain chain' v v' up rows cols at levels h =
      let (config, e, h1) = switch-ok chain chain' v v' up rows cols at h in
      let (row, e2) = budget-ok chain rows cols config e in
      let u = or_int scales up config.scale_down_by in
      let (dropped, rows', cols', e3, e4, e5, at') =
        apply-ok scales chain chain' (scaled_up scales v u) v' config rows cols
          (scaled_up-IsAt v u rows cols at) h1 in
      let less = one-less scales torch chain rows cols row config levels e2 in
      let less' = rw e4 at less in
      record {
        rows_left = rows';
        cols_left = cols';
        left_at = at';
        left_levels = less'.0;
        fewer = less'.1;
        recorded = dropped ∷ [];
        drops = e5;
        one_each = refl;
      }

  -- On a value whose active rows and columns agree, an `infer_modswitch_by_num_levels` that returns
  -- has consumed exactly the number of levels it was asked for, and has recorded one row for each.
  pub modswitch_num_levels :
      (n : ℕ) (chain chain' : ModulusChain) (v v' : HomValue S) (rows : List ℕ)
      (cols : List (List ℕ))
      → IsAt v rows cols
      → IsLevels rows cols
      → infer_modswitch_by_num_levels scales torch p chain v n budget ≡ ok (chain', v')
      → Consumed n cols chain chain' v'
  unfolding infer_modswitch_by_num_levels
  modswitch_num_levels zero chain chain' v v' rows cols at levels h =
      let r = at.rows_at in
      let c = at.cols_at in
      record {
        rows_left = rows;
        cols_left = cols;
        left_at = record { rows_at = ground arith; cols_at = ground arith };
        left_levels = levels;
        fewer = omega arith;
        recorded = [];
        drops = ground (arith, append-nil chain.drop_order);
        one_each = refl;
      }
  modswitch_num_levels (suc n) chain chain' v v' rows cols at levels h =
      let ((c1, v1), e, h1) =
        >>=-eq-ok (infer_optional_modswitch scales torch p chain v true budget none) _ h in
      let one = modswitch_one_level chain c1 v v1 none rows cols at levels e in
      let more =
        modswitch_num_levels n c1 chain' v1 v' one.rows_left one.cols_left one.left_at
          one.left_levels h1 in
      Consumed-add 1 n (suc n) cols chain c1 chain' v1 v' one more (omega arith)
