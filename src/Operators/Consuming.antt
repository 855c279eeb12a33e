-- ===== src/Operators/Consuming.antt =====
-- The levels that a multiplication of lattica_build_src/lattica_build/operators/arithmetic consumes.
use lattica_studio.Prelude.{ℕ, ◌≡◌, List, some, true, ◌⊎◌, inl, inr}
use lattica_studio.Result.{ok, >>=-eq-ok}
use lattica_studio.Torch.{Torch}
use lattica_studio.HomValue.{HomValue, post_init}
use lattica_studio.Params.{HomParams}
use lattica_studio.Chain.{ModulusChain}
use lattica_studio.Levels.{Scales}
use lattica_studio.Levels.Drop.{IsLevels}
use lattica_studio.Levels.Switch.{IsAt, Consumed, modswitch_one_level}
use lattica_studio.Align.{infer_adjust_levels_and_scale}
use lattica_studio.Align.Lower.{IsBelow, infer_adjust_lowers}
use lattica_studio.Operators.Arithmetic.{HomMul, copy_scale, mul_output_level}

copy_scale-IsAt :
    {S : Type 0} (v : HomValue S) (scale : S) (rows : List ℕ) (cols : List (List ℕ))
    → IsAt v rows cols
    → IsAt (copy_scale v scale) rows cols
unfolding copy_scale post_init
copy_scale-IsAt v scale rows cols at = record { rows_at = at.rows_at; cols_at = at.cols_at }

module _ {S : Type 0} (scales : Scales S) (torch : Torch) (p : HomParams) where
  -- A HomMul with a modulus switch that returns, on two inputs whose active rows and columns agree,
  -- has consumed exactly one level of one of them, which has no row and no column that the other has
  -- not active too.
  pub mul_consumes_one :
      (op : HomMul) (chain chain' : ModulusChain) (v w v' : HomValue S) (rows_1 rows_2 : List ℕ)
      (cols_1 cols_2 : List (List ℕ))
      → op.with_modswitch ≡ true
      → IsAt v rows_1 cols_1
      → IsAt w rows_2 cols_2
      → IsLevels rows_1 cols_1
      → IsLevels rows_2 cols_2
      → mul_output_level scales torch p chain op v w ≡ ok (chain', v')
      → (IsBelow rows_1 cols_1 rows_2 cols_2 × Consumed 1 cols_1 chain chain' v')
        ⊎ (IsBelow rows_2 cols_2 rows_1 cols_1 × Consumed 1 cols_2 chain chain' v')
  unfolding mul_output_level
  mul_consumes_one op chain chain' v w v' rows_1 rows_2 cols_1 cols_2 on a b levels_1 levels_2 h =
      let (res, e, h1) = >>=-eq-ok (infer_adjust_levels_and_scale v w) _ h in
      let h2 = rw on at h1 in
      elim (infer_adjust_lowers v w res rows_1 rows_2 cols_1 cols_2 a b e) [
        | inl (at, scale, below) ↦ inl (
          below,
          modswitch_one_level scales torch p op.rows_budget chain chain' (copy_scale res v.pt_scale)
              v' (some w.pt_scale) rows_1 cols_1 (copy_scale-IsAt res v.pt_scale rows_1 cols_1 at)
              levels_1 h2,
        )
        | inr (at, scale, below) ↦ inr (
          below,
          modswitch_one_level scales torch p op.rows_budget chain chain' (copy_scale res v.pt_scale)
              v' (some w.pt_scale) rows_2 cols_2 (copy_scale-IsAt res v.pt_scale rows_2 cols_2 at)
              levels_2 h2,
        )
      ]
