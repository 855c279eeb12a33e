-- ===== src/Operators/ModSwitch.antt =====
-- HomModSwitch of lattica_build_src/lattica_build/operators/fhe/h_mod_switch.py, with a row that is
-- counted from the start.
use lattica_studio.Prelude.{
  ℕ, ◌≡◌, refl, sym, ap, ◌∙◌, List, [], ◌∷◌, ◌++◌, Option, none, some, length, get_elem?, arith,
  Option-cases, inl, inr,
}
use lattica_studio.Result.{Result, ok, type_error, index_error, or_raise, ◌>>=◌, Result-cases}
use lattica_studio.Torch.{Torch}
use lattica_studio.HomValue.{HomValue}
use lattica_studio.Chain.{ModulusChain}
use lattica_studio.Levels.{
  Scales, DropConfig, sum_cols, without_row, get_drop_config, dropped_levels, apply_drop_config,
}
use lattica_studio.Levels.Config.{drop_row-ok}
use lattica_studio.Levels.Drop.{IsLevels}
use lattica_studio.Levels.Switch.{IsAt, Consumed, apply-ok, one-less}

pub record HomModSwitch : Type 0 where
  pub variant : ℕ
  pub relative_row : ℕ
  pub cols_to_drop : Option (List ℕ)

abbrev num_cols_to_drop : Option (List ℕ) → List ℕ → ℕ
num_cols_to_drop none active = sum_cols active
num_cols_to_drop (some cols) active = length cols

module _ {S : Type 0} (scales : Scales S) (torch : Torch) where
  -- HomModSwitch.infer_output_level_and_scale
  unfoldable pub mod_switch_output_level :
      ModulusChain → HomValue S → HomModSwitch → Result (ModulusChain × HomValue S)
  mod_switch_output_level chain v op = do
    cols ← or_raise v.active_cols type_error
    active ← or_raise (get_elem? cols op.relative_row) index_error
    rows ← or_raise v.active_rows type_error
    config ←
        get_drop_config torch chain rows cols op.relative_row
          (num_cols_to_drop op.cols_to_drop active)
    apply_drop_config scales chain v config

  -- The configuration that an operator which returns has applied.
  mod_switch-config :
      (chain chain' : ModulusChain) (v v' : HomValue S) (op : HomModSwitch) (rows : List ℕ)
      (cols : List (List ℕ))
      → IsAt v rows cols
      → mod_switch_output_level chain v op ≡ ok (chain', v')
      → (active : List ℕ) × (config : DropConfig) × (get_elem? cols op.relative_row ≡ some active)
        × (get_drop_config torch chain rows cols op.relative_row
              (num_cols_to_drop op.cols_to_drop active)
            ≡ ok config)
        × (apply_drop_config scales chain v config ≡ ok (chain', v'))
  unfolding mod_switch_output_level
  mod_switch-config chain chain' v v' op rows cols at h =
      let r = at.rows_at in
      let c = at.cols_at in
      elim (Option-cases (get_elem? cols op.relative_row)) [
        | inl e ↦ ground arith
        | inr (active, e) ↦
            let num = num_cols_to_drop op.cols_to_drop active in
            elim (Result-cases (get_drop_config torch chain rows cols op.relative_row num)) [
              | inl (config, e2) ↦ (active, config, e, e2, ground arith)
              | inr (x, e2) ↦ ground arith
            ]
      ]

  whole_row :
      (chain : ModulusChain) (rows : List ℕ) (cols : List (List ℕ)) (row : ℕ) (active : List ℕ)
      (config : DropConfig)
      → get_elem? cols row ≡ some active
      → get_drop_config torch chain rows cols row (sum_cols active) ≡ ok config
      → (config.relative_row ≡ row) × (config.cols_to_drop ≡ none)
  unfolding get_drop_config
  whole_row chain rows cols row active config at h =
      drop_row-ok torch chain rows cols row active config (ground arith)

  -- A HomModSwitch without columns that returns on a value with levels has dropped the row at its
  -- relative index, with that row's columns, from the value, and has added that row, and no other, to
  -- the drop order.
  pub mod_switch-row :
      (chain chain' : ModulusChain) (v v' : HomValue S) (op : HomModSwitch) (rows : List ℕ)
      (cols : List (List ℕ))
      → IsAt v rows cols
      → op.cols_to_drop ≡ none
      → mod_switch_output_level chain v op ≡ ok (chain', v')
      → (row : ℕ) × (get_elem? rows op.relative_row ≡ some row)
        × IsAt v' (without_row rows op.relative_row) (without_row cols op.relative_row)
        × (chain'.drop_order ≡ chain.drop_order ++ row ∷ [])
  unfolding dropped_levels
  mod_switch-row chain chain' v v' op rows cols at whole h =
      let (active, config, e, e2, e3) = mod_switch-config chain chain' v v' op rows cols at h in
      let (same, none_left) =
        whole_row chain rows cols op.relative_row active config e (rw whole at e2) in
      let (row, rows', cols', e4, e5, e6, at') =
        apply-ok scales chain chain' v v' config rows cols at e3 in
      let left =
        sym e5
        ∙ ap (λ r. dropped_levels scales rows cols r config.cols_to_drop) same
        ∙ ap (λ c. dropped_levels scales rows cols op.relative_row c) none_left in
      (
        row,
        rw same at e4,
        record {
          rows_at = at'.rows_at ∙ ap some (ground (arith, left));
          cols_at = at'.cols_at ∙ ap some (ground (arith, left));
        },
        e6,
      )

  -- A HomModSwitch with one column that returns on a value whose active rows and columns agree has
  -- consumed exactly one level: the value's active rows and columns agree again, with one active
  -- column fewer in all, and one row is added to the drop order.
  pub mod_switch-col :
      (chain chain' : ModulusChain) (v v' : HomValue S) (op : HomModSwitch) (rows : List ℕ)
      (cols : List (List ℕ)) (col : ℕ)
      → IsAt v rows cols
      → IsLevels rows cols
      → op.cols_to_drop ≡ some (col ∷ [])
      → mod_switch_output_level chain v op ≡ ok (chain', v')
      → Consumed 1 cols chain chain' v'
  mod_switch-col chain chain' v v' op rows cols col at levels one h =
      let (active, config, e, e2, e3) = mod_switch-config chain chain' v v' op rows cols at h in
      let less =
        one-less scales torch chain rows cols op.relative_row config levels (rw one at e2) in
      let (row, rows', cols', e4, e5, e6, at') =
        apply-ok scales chain chain' v v' config rows cols at e3 in
      let less' = rw e5 at less in
      record {
        rows_left = rows';
        cols_left = cols';
        left_at = at';
        left_levels = less'.0;
        fewer = less'.1;
        recorded = row ∷ [];
        drops = e6;
        one_each = refl;
      }
