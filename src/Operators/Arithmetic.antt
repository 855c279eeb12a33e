-- ===== src/Operators/Arithmetic.antt =====
-- The arithmetic and refreshing operators: lattica_build_src/lattica_build/operators/arithmetic (HomAdd,
-- HomMul, HomConstAdd, HomConstMul, HomAxisSum) and operators/fhe/h_bootstrap.py and h_ring_switch.py.
use lattica_studio.Prelude.{ℕ, List, [], ◌∷◌, Option, none, some, Bool}
use lattica_studio.Prelude.Int.{ℤ}
use lattica_studio.Result.{Result, ok, ◌>>=◌}
use lattica_studio.Torch.{Shape, Torch}
use lattica_studio.HomValue.{HomValue, post_init}
use lattica_studio.Shape.{infer_broadcast_output_shape, infer_reduce_axis_output_shape}
use lattica_studio.Params.{HomParams}
use lattica_studio.Chain.{ModulusChain}
use lattica_studio.Levels.{Scales, infer_optional_modswitch}
use lattica_studio.Align.{infer_adjust_levels_and_scale, init_levels_after_bootstrap}

pub record HomMul : Type 0 where
  pub axis_sum : Option ℤ
  pub keep_axis : Bool
  pub with_modswitch : Bool
  pub rows_budget : Option (List ℕ)

-- `S` is the type of plaintext scales.
pub record HomConstMul (S : Type 0) : Type 0 where
  pub dims : Shape
  pub with_modswitch : Bool
  pub rows_budget : Option (List ℕ)
  pub pt_scale : Option S

pub record HomConstAdd : Type 0 where
  pub dims : Shape

pub record HomAxisSum : Type 0 where
  pub dim : ℤ
  pub keep_dim : Bool

pub record Bootstrap (S : Type 0) : Type 0 where
  pub target_output_scale : Option S

module _ {S : Type 0} (torch : Torch) where
  -- HomAdd.infer_output_shape
  unfoldable pub add_output_shape : HomValue S → HomValue S → Result (HomValue S)
  unfolding infer_broadcast_output_shape
  add_output_shape v w = infer_broadcast_output_shape torch v (w ∷ []) none

  abbrev pub reduced : Option ℤ → Bool → HomValue S → Result (HomValue S)
  reduced none keep_axis v = ok v
  reduced (some axis) keep_axis v = infer_reduce_axis_output_shape v axis keep_axis

  -- HomMul.infer_output_shape
  unfoldable pub mul_output_shape : HomMul → HomValue S → HomValue S → Result (HomValue S)
  unfolding infer_broadcast_output_shape infer_reduce_axis_output_shape
  mul_output_shape op v w = do
    after_mul ← infer_broadcast_output_shape torch v (w ∷ []) none
    reduced op.axis_sum op.keep_axis after_mul

  -- HomConstMul.infer_output_shape
  unfoldable pub const_mul_output_shape : HomConstMul S → HomValue S → Result (HomValue S)
  unfolding infer_broadcast_output_shape
  const_mul_output_shape op v = infer_broadcast_output_shape torch v [] (some op.dims)

  -- HomConstAdd.infer_output_shape
  unfoldable pub const_add_output_shape : HomConstAdd → HomValue S → Result (HomValue S)
  unfolding infer_broadcast_output_shape
  const_add_output_shape op v = infer_broadcast_output_shape torch v [] (some op.dims)

-- HomAxisSum.infer_output_shape
unfoldable pub axis_sum_output_shape : {S : Type 0} → HomAxisSum → HomValue S → Result (HomValue S)
unfolding infer_reduce_axis_output_shape
axis_sum_output_shape op v = infer_reduce_axis_output_shape v op.dim op.keep_dim

-- HomAdd.infer_output_level_and_scale
unfoldable pub add_output_level : {S : Type 0} → HomValue S → HomValue S → Result (HomValue S)
unfolding infer_adjust_levels_and_scale
add_output_level v w = infer_adjust_levels_and_scale v w

-- `make_copy(pt_scale=scale)`
unfoldable pub copy_scale : {S : Type 0} → HomValue S → S → HomValue S
unfolding post_init
copy_scale v scale = post_init (record v { pt_scale = scale })

module _ {S : Type 0} (scales : Scales S) (torch : Torch) (p : HomParams) where
  -- HomMul.infer_output_level_and_scale
  unfoldable pub mul_output_level :
      ModulusChain → HomMul → HomValue S → HomValue S → Result (ModulusChain × HomValue S)
  unfolding infer_adjust_levels_and_scale infer_optional_modswitch copy_scale
  mul_output_level chain op v w = do
    res ← infer_adjust_levels_and_scale v w
    infer_optional_modswitch scales torch p chain (copy_scale res v.pt_scale) op.with_modswitch
        op.rows_budget (some w.pt_scale)

  -- HomConstMul.infer_output_level_and_scale
  unfoldable pub const_mul_output_level :
      ModulusChain → HomConstMul S → HomValue S → Result (ModulusChain × HomValue S)
  unfolding infer_optional_modswitch
  const_mul_output_level chain op v =
      infer_optional_modswitch scales torch p chain v op.with_modswitch op.rows_budget op.pt_scale

abbrev pub scale_or : {S : Type 0} → Option S → S → S
scale_or none scale = scale
scale_or (some target) scale = target

-- Bootstrap.infer_output_level_and_scale
unfoldable pub bootstrap_output_level :
    {S : Type 0} → ModulusChain → HomParams → Bootstrap S → HomValue S → Result (HomValue S)
unfolding init_levels_after_bootstrap copy_scale
bootstrap_output_level chain p op v = do
  res ← init_levels_after_bootstrap chain p v
  ok (copy_scale res (scale_or op.target_output_scale v.pt_scale))

-- HomRingSwitch.infer_output_level_and_scale
unfoldable pub ring_switch_output_level :
    {S : Type 0} → ModulusChain → HomParams → HomValue S → Result (HomValue S)
unfolding init_levels_after_bootstrap
ring_switch_output_level chain p v = init_levels_after_bootstrap chain p v
