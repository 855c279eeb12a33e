-- ===== src/Operators/Depth.antt =====
-- The levels that the evaluation of a polynomial consumes:
-- lattica_build_src/lattica_build/operators/polynomials/h_poly_eval_base.py.
use native.Mathlib.Nat.{pow-suc}
use lattica_studio.Prelude.{
  ℕ, zero, suc, ◌+◌, ◌^◌, ◌≤◌, ◌<◌, ◌≡◌, refl, List, none, Bool, true, false, Bool-cases, inl, inr,
  leb, ◌==◌, arith,
}
use lattica_studio.Result.{ok, value_error, >>=-eq-ok, raise_if}
use lattica_studio.Torch.{Torch}
use lattica_studio.HomValue.{HomValue}
use lattica_studio.Params.{HomParams}
use lattica_studio.Chain.{ModulusChain}
use lattica_studio.Levels.{Scales, infer_modswitch_by_num_levels}
use lattica_studio.Levels.Drop.{IsLevels}
use lattica_studio.Levels.Switch.{
  IsAt, Consumed, Consumed-add, modswitch_one_level, modswitch_num_levels,
}
use lattica_studio.Operators.Evaluation.{
  HomPolyEvalBase, least_power, ceil_log2, num_coefs, rescaled, poly_output_level,
}

-- More than `n` doublings pass every `n`.
lt-pow : (n : ℕ) → n < 2 ^ n
lt-pow zero = omega arith
lt-pow (suc n) = omega (arith, lt-pow n, pow-suc 2 n)

-- Where fuel and the first exponent reach `n`, the least power from there on does too, and a lesser
-- exponent from there on does not.
least_power_bounds :
    (fuel k n : ℕ)
    → n ≤ fuel + k
    → (n ≤ 2 ^ least_power fuel k n) × ((j : ℕ) → k ≤ j → j < least_power fuel k n → 2 ^ j < n)
unfolding least_power
least_power_bounds zero k n h = (omega (arith, lt-pow k), λ j a b. absurd (omega arith))
least_power_bounds (suc fuel) k n h = elim (Bool-cases (leb n (2 ^ k))) [
  | inl e ↦ rw e (ground arith, λ j a b. absurd (omega arith))
  | inr e ↦
      let (above, least) = least_power_bounds fuel (suc k) n (omega arith) in
      rw e (
        above,
        λ j a b. elim (Bool-cases (j == k)) [
          | inl same ↦ ground arith
          | inr other ↦ least j (ground arith) b
        ],
      )
]

ceil_log2_bounds : (n : ℕ) → (n ≤ 2 ^ ceil_log2 n) × ((j : ℕ) → j < ceil_log2 n → 2 ^ j < n)
unfolding ceil_log2
ceil_log2_bounds n =
    let (above, least) = least_power_bounds n 0 n (omega arith) in
    (above, λ j l. least j (omega arith) l)

abbrev pub rescale_levels : Bool → ℕ
rescale_levels true = 1
rescale_levels false = 0

module _ {S : Type 0} (scales : Scales S) (torch : Torch) (p : HomParams) where
  rescaled-Consumed :
      (is_rescaled : Bool) (op : HomPolyEvalBase) (chain chain' : ModulusChain) (v v' : HomValue S)
      (rows : List ℕ) (cols : List (List ℕ))
      → IsAt v rows cols
      → IsLevels rows cols
      → rescaled scales torch p chain op v is_rescaled ≡ ok (chain', v')
      → Consumed (rescale_levels is_rescaled) cols chain chain' v'
  unfolding infer_modswitch_by_num_levels
  rescaled-Consumed true op chain chain' v v' rows cols at levels h =
      modswitch_one_level scales torch p op.rows_budget chain chain' v v' none rows cols at levels h
  rescaled-Consumed false op chain chain' v v' rows cols at levels h =
      modswitch_num_levels scales torch p op.rows_budget 0 chain chain' v v' rows cols at levels h

  -- A HomPolyEvalBase that returns on a value whose active rows and columns agree has consumed, for
  -- `n` coefficients, the least number of levels whose power of two reaches `n`, and one level more
  -- where it rescales its input.
  pub poly_depth :
      (op : HomPolyEvalBase) (chain chain' : ModulusChain) (v v' : HomValue S) (rows : List ℕ)
      (cols : List (List ℕ))
      → IsAt v rows cols
      → IsLevels rows cols
      → poly_output_level scales torch p chain op v ≡ ok (chain', v')
      → (n depth : ℕ) × (num_coefs op.coefs_shape ≡ ok n)
        × (n ≤ 2 ^ depth)
        × ((j : ℕ) → j < depth → 2 ^ j < n)
        × Consumed (rescale_levels op.is_rescaled + depth) cols chain chain' v'
  unfolding poly_output_level
  poly_depth op chain chain' v v' rows cols at levels h =
      let ((c1, v1), e, h1) = >>=-eq-ok (rescaled scales torch p chain op v op.is_rescaled) _ h in
      let (n, e2, h2) = >>=-eq-ok (num_coefs op.coefs_shape) _ h1 in
      let (u, e3, h3) = >>=-eq-ok (raise_if (n == 0) value_error) _ h2 in
      let one = rescaled-Consumed op.is_rescaled op chain c1 v v1 rows cols at levels e in
      let more =
        modswitch_num_levels scales torch p op.rows_budget (ceil_log2 n) c1 chain' v1 v'
          one.rows_left one.cols_left one.left_at one.left_levels h3 in
      let (above, least) = ceil_log2_bounds n in
      (
        n,
        ceil_log2 n,
        e2,
        above,
        least,
        Consumed-add (rescale_levels op.is_rescaled) (ceil_log2 n)
            (rescale_levels op.is_rescaled + ceil_log2 n) cols chain c1 chain' v1 v' one more refl,
      )
