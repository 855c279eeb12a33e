-- ===== src/Operators/Evaluation.antt =====
-- HomPolyEvalBase of lattica_build_src/lattica_build/operators/polynomials/h_poly_eval_base.py and
-- HomRunningSum and HomExpand of operators/slots.
use lattica_studio.Prelude.{
  ℕ, zero, suc, ◌-◌, ◌/◌, ◌^◌, List, [], ◌∷◌, ◌++◌, Option, none, some, Bool, true, false, length,
  take, get_elem?, leb, ◌==◌, if◌then◌else◌,
}
use lattica_studio.Prelude.Int.{ℤ, pos, ◌+ℤ◌}
use lattica_studio.Result.{
  Result, ok, err, value_error, type_error, index_error, zero_division, raise_if, or_raise, ◌>>=◌,
  ◌>>◌,
}
use lattica_studio.Torch.{Shape, Torch}
use lattica_studio.HomValue.{HomValue, to_pos_axis, copy_shape, copy_shape_axis}
use lattica_studio.Shape.{infer_insert_axis_output_shape}
use lattica_studio.Operators.{set_item}
use lattica_studio.Params.{HomParams, internal_n}
use lattica_studio.Bootstrap.BitLength.{bit_length}
use lattica_studio.Chain.{ModulusChain}
use lattica_studio.Levels.{Scales, infer_optional_modswitch, infer_modswitch_by_num_levels}

-- The coefficients by their shape. `is_rescaled` is the outcome of the test on the interval,
-- `needs_rescale and abs(x_rescale_mul - 1) > self.tol`.
pub record HomPolyEvalBase : Type 0 where
  pub coefs_shape : Shape
  pub is_rescaled : Bool
  pub rows_budget : Option (List ℕ)

-- The least `k` from a number on with `n <= 2 ** k`.
unfoldable pub least_power : ℕ → ℕ → ℕ → ℕ
least_power zero k n = k
least_power (suc fuel) k n =
    let rest = least_power fuel (suc k) n in if leb n (2 ^ k) then k else rest

-- `math.ceil(math.log2(n))` for `n` from 1 on, in exact arithmetic.
unfoldable pub ceil_log2 : ℕ → ℕ
unfolding least_power
ceil_log2 n = least_power n 0 n

-- `coefs.shape[:-1]` and `coefs.shape[-1]`
abbrev pub batch_shape : Shape → Shape
batch_shape shape = take (length shape - 1) shape

unfoldable pub num_coefs : Shape → Result ℕ
num_coefs [] = err index_error
num_coefs (d ∷ shape) = or_raise (get_elem? (d ∷ shape) (length shape)) index_error

-- HomPolyEvalBase.infer_output_shape
unfoldable pub poly_output_shape : {S : Type 0} → HomPolyEvalBase → HomValue S → HomValue S
unfolding copy_shape copy_shape_axis
poly_output_shape op v =
    let coef_batch_shape = batch_shape op.coefs_shape in
    let output_shape = coef_batch_shape ++ v.tensor_shape in
    elim v.n_axis [
      | none ↦ copy_shape v output_shape
      | some n ↦ copy_shape_axis v output_shape (n +ℤ pos (length coef_batch_shape))
    ]

-- HomRunningSum, for its levels.
pub record HomRunningSum : Type 0 where
  pub k : Option ℕ
  pub stage_sizes : Option (List ℕ)
  pub stages_per_level : Option ℕ
  pub rows_budget : Option (List ℕ)

-- `int(math.log2(k))`, in exact arithmetic.
unfoldable pub floor_log2 : ℕ → Result ℕ
unfolding bit_length
floor_log2 k = if k == 0 then err value_error else ok (bit_length k - 1)

-- The number of stages; `internal_n` is the ring's.
unfoldable pub num_stages : ℕ → HomRunningSum → Result ℕ
unfolding floor_log2
num_stages internal_n op = elim op.stage_sizes [
  | none ↦ floor_log2 (elim op.k [ none ↦ internal_n | some k ↦ k ])
  | some sizes ↦ ok (length sizes)
]

abbrev pub per_level : ℕ → Option ℕ → Result ℕ
per_level num none = ok num
per_level num (some zero) = err zero_division
per_level num (some (suc n)) = ok (num / suc n)

module _ {S : Type 0} (scales : Scales S) (torch : Torch) (p : HomParams) where
  abbrev pub rescaled :
      ModulusChain → HomPolyEvalBase → HomValue S → Bool → Result (ModulusChain × HomValue S)
  rescaled chain op v false = ok (chain, v)
  rescaled chain op v true =
      infer_optional_modswitch scales torch p chain v true op.rows_budget none

  -- HomPolyEvalBase.infer_output_level_and_scale
  unfoldable pub poly_output_level :
      ModulusChain → HomPolyEvalBase → HomValue S → Result (ModulusChain × HomValue S)
  unfolding infer_optional_modswitch infer_modswitch_by_num_levels num_coefs ceil_log2
  poly_output_level chain op v = do
    (chain', v') ← rescaled chain op v op.is_rescaled
    num ← num_coefs op.coefs_shape
    raise_if (num == 0) value_error
    infer_modswitch_by_num_levels scales torch p chain' v' (ceil_log2 num) op.rows_budget

  -- HomRunningSum.infer_output_level_and_scale
  unfoldable pub running_sum_output_level :
      ModulusChain → HomRunningSum → HomValue S → Result (ModulusChain × HomValue S)
  unfolding infer_modswitch_by_num_levels num_stages
  running_sum_output_level chain op v = do
    num ← num_stages (internal_n p) op
    num_levels ← per_level num op.stages_per_level
    infer_modswitch_by_num_levels scales torch p chain v num_levels op.rows_budget

-- HomExpand of operators/slots/h_expand.py. A value without slots, whose shape would hold None, is taken
-- for an error.
pub record HomExpand : Type 0 where
  pub expand_axis : ℤ
  pub stage_sizes : Option (List ℕ)
  pub stages_per_level : Option ℕ
  pub rows_budget : Option (List ℕ)

abbrev pub expand_stages : Option (List ℕ) → Option ℕ → Result ℕ
expand_stages (some sizes) n_slots = ok (length sizes)
expand_stages none none = err type_error
expand_stages none (some n) = floor_log2 n

module _ {S : Type 0} where
  -- The slot axis widened to the ring, where both are given.
  abbrev pub widened : Option ℕ → Option ℤ → HomValue S → Result (HomValue S)
  widened none axis output = ok output
  widened (some internal_n) none output = ok output
  widened (some internal_n) (some axis) output = do
    output_shape ← set_item output.tensor_shape axis internal_n
    ok (copy_shape output output_shape)

  -- HomExpand.infer_output_shape
  unfoldable pub expand_output_shape : Option ℕ → HomExpand → HomValue S → Result (HomValue S)
  unfolding to_pos_axis infer_insert_axis_output_shape copy_shape
  expand_output_shape internal_n op v = do
    n_slots ← or_raise v.n_slots type_error
    let axis = to_pos_axis op.expand_axis v.tensor_shape
    let output = infer_insert_axis_output_shape v axis n_slots
    widened internal_n output.n_axis output

module _ {S : Type 0} (scales : Scales S) (torch : Torch) (p : HomParams) where
  -- HomExpand.infer_output_level_and_scale
  unfoldable pub expand_output_level :
      ModulusChain → HomExpand → HomValue S → Result (ModulusChain × HomValue S)
  unfolding infer_modswitch_by_num_levels floor_log2
  expand_output_level chain op v = do
    num ← expand_stages op.stage_sizes v.n_slots
    num_levels ← per_level num op.stages_per_level
    infer_modswitch_by_num_levels scales torch p chain v num_levels op.rows_budget
