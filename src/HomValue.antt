-- ===== src/HomValue.antt =====
-- lattica_build_src/lattica_build/base_classes/hom_value.py: the metadata of a ciphertext that the
-- build traces through the graph.
use lattica_studio.Prelude.{
  ℕ, String, List, Option, none, some, Bool, true, false, not, ◌==◌, length, ltb, if◌then◌else◌,
}
use lattica_studio.Prelude.Int.{ℤ, pos, negsuc, ◌+ℤ◌, ◌-ℤ◌, neg_part}
use lattica_studio.Prelude.Python.{get_item?}
use lattica_studio.Result.{Result, ok, index_error, or_raise, ◌>>=◌}
use lattica_studio.Torch.{Shape}

-- `axis >= 0` is the test of both functions
unfoldable pub to_pos_axis : ℤ → Shape → ℤ
to_pos_axis (pos axis) shape = pos axis
to_pos_axis (negsuc axis) shape = negsuc axis +ℤ pos (length shape)

unfoldable pub to_neg_axis : ℤ → Shape → ℤ
to_neg_axis (negsuc axis) shape = negsuc axis
to_neg_axis (pos axis) shape = pos axis -ℤ pos (length shape)

-- `S` is the type of plaintext scales (ints, floats and `Decimal`s).
pub record HomValue (S : Type 0) : Type 0 where
  pub id : Option String
  pub tensor_shape : Shape
  pub n_axis : Option ℤ
  pub active_rows : Option (List ℕ)
  pub active_cols : Option (List (List ℕ))
  pub pt_scale : S
  pub custom_input_ref : Option String
  pub n_slots : Option ℕ

abbrev pub pos_axis? : Option ℤ → Shape → Option ℤ
pos_axis? none shape = none
pos_axis? (some axis) shape = some (to_pos_axis axis shape)

module _ {S : Type 0} where
  -- `__post_init__`, which every copy goes through
  unfoldable pub post_init : HomValue S → HomValue S
  post_init v = record v { n_axis = pos_axis? v.n_axis v.tensor_shape }

  -- `make_copy(tensor_shape=shape)`
  unfoldable pub copy_shape : HomValue S → Shape → HomValue S
  unfolding post_init
  copy_shape v shape = post_init (record v { tensor_shape = shape })

  -- `make_copy(tensor_shape=shape, n_axis=axis)`
  unfoldable pub copy_shape_axis : HomValue S → Shape → ℤ → HomValue S
  unfolding post_init
  copy_shape_axis v shape axis = post_init (record v { tensor_shape = shape; n_axis = some axis })

  unfoldable pub is_custom : HomValue S → Bool
  is_custom v = elim v.custom_input_ref [ none ↦ false | some _ ↦ true ]

unfoldable pub is_n_axis_broadcasted : Shape → Shape → ℤ → Result Bool
unfolding to_neg_axis
is_n_axis_broadcasted pt_shape tensor_shape n_axis =
    let axis = to_neg_axis n_axis pt_shape in
    if ltb (length tensor_shape) (neg_part axis) then ok true else do
      d ← or_raise (get_item? tensor_shape axis) index_error
      e ← or_raise (get_item? pt_shape axis) index_error
      ok (not (d == e))
