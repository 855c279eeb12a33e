-- ===== src/Operators.antt =====
-- The shape rules of the operators of lattica_build_src/lattica_build/operators/shape (HomReshape,
-- HomSlice, HomSqueeze, HomUnsqueeze) and operators/slots (HomRotateSum, HomSumSlots): the constructor
-- of each as a record, and its `infer_output_shape`.
pub mod Arithmetic
pub mod Consuming
pub mod Depth
pub mod Evaluation
pub mod Expanding
pub mod ModSwitch
pub mod Reshape
pub mod Slice
pub mod Squeeze
use lattica_studio.Prelude.{
  ◌++◌, ℕ, zero, suc, ◌+◌, ◌-◌, ◌/◌, ◌≡◌, List, [], ◌∷◌, Option, none, some, Bool, true, false, not,
  ◌&&◌, ◌||◌, length, set, get_elem?, take, drop, leb, ltb, ◌==◌, if◌then◌else◌,
}
use lattica_studio.Prelude.Int.{ℤ, pos, negsuc, ◌+ℤ◌, ◌-ℤ◌, ltb_ℤ}
use lattica_studio.Prelude.Python.{get_item?, slice_to, slice_from, item_index, eqb_ℤ, leb_ℤ}
use lattica_studio.Result.{
  Result, ok, err, value_error, type_error, index_error, zero_division, raise_if, or_raise, ◌>>=◌,
  ◌>>◌,
}
use lattica_studio.Torch.{Shape, Torch, prod}
use lattica_studio.HomValue.{HomValue, to_pos_axis, post_init, copy_shape, copy_shape_axis}
use lattica_studio.Shape.{
  is_slot_axis, infer_insert_axis_output_shape, infer_remove_axis_output_shape,
}

-- The loop of HomReshape from `output_axis` on: the first axis of the slot axis's size, with as many
-- entries before and after it as the input has.
unfoldable pub find_axis : Shape → ℕ → Shape → ℕ → ℕ → ℕ → Option ℕ
find_axis output_shape output_axis [] n_dim input_prefix input_suffix = none
find_axis output_shape output_axis (output_dim ∷ dims) n_dim input_prefix input_suffix =
    let rest = find_axis output_shape (suc output_axis) dims n_dim input_prefix input_suffix in
    if output_dim == n_dim
      && (prod (take output_axis output_shape) == input_prefix
          && prod (drop (suc output_axis) output_shape) == input_suffix)
    then some output_axis
    else rest

-- `key` of HomSlice: an int, or the three entries of a `slice`.
pub data SliceKey : Type 0 where
  index : ℤ → SliceKey
  range : Option ℤ → Option ℤ → Option ℤ → SliceKey

pub record HomSlice : Type 0 where
  pub dim : ℤ
  pub start : ℤ
  pub end : Option ℤ
  pub step : ℤ
  pub drop_dim : Bool

abbrev or_int : Option ℤ → ℤ → ℤ
or_int none k = k
or_int (some i) k = i

unfoldable pub init_slice : ℤ → SliceKey → HomSlice
init_slice dim (index key) = record {
  dim = dim;
  start = key;
  end = none;
  step = pos 1;
  drop_dim = true;
}
init_slice dim (range start stop step) = record {
  dim = dim;
  start = or_int start (pos 0);
  end = stop;
  step = or_int step (pos 1);
  drop_dim = false;
}

abbrev clip : ℤ → ℤ → ℤ → ℤ
clip low high i = if ltb_ℤ i low then low else if ltb_ℤ high i then high else i

-- One bound of `slice.indices(size)`: counted from the end if negative, then cut to the range.
abbrev pub bound : ℕ → ℤ → ℤ → ℤ → ℤ
bound size low high (pos i) = clip low high (pos i)
bound size low high (negsuc i) = clip low high (negsuc i +ℤ pos size)

abbrev pub end_bound : ℕ → ℤ → ℤ → ℤ → Option ℤ → ℤ
end_bound size low high default none = default
end_bound size low high default (some end) = bound size low high end

-- How many steps of size `step` fit into a distance.
abbrev pub steps : ℤ → ℕ → ℕ
steps (pos zero) step = 0
steps (pos (suc d)) step = d / step + 1
steps (negsuc d) step = 0

-- `len(range(start_n, end_n, step_n))`, after `slice(start, end, step).indices(size)`; the step is not 0.
unfoldable pub slice_length : ℕ → ℤ → Option ℤ → ℤ → ℕ
slice_length size start end (pos step) =
    let first = bound size (pos 0) (pos size) start in
    let last = end_bound size (pos 0) (pos size) (pos size) end in steps (last -ℤ first) step
slice_length size start end (negsuc step) =
    let low = negsuc 0 in
    let high = pos size -ℤ pos 1 in
    let first = bound size low high start in
    let last = end_bound size low high low end in steps (first -ℤ last) (step + 1)

-- `new_shape[dim] = new_len`
abbrev pub set_item : Shape → ℤ → ℕ → Result Shape
set_item shape i x = do k ← or_raise (item_index (length shape) i) index_error; ok (set shape k x)

abbrev pub at_or : Option ℕ → ℕ → ℕ
at_or none k = k
at_or (some n) k = n

abbrev pub first_of : Option ℕ → Option ℕ → Option ℕ
first_of none b = b
first_of (some a) b = some a

-- `a // b` on numbers
abbrev pub floor_div : ℕ → ℕ → Result ℕ
floor_div a zero = err zero_division
floor_div a (suc b) = ok (a / suc b)

-- HomRotateSum: the offsets only count here.
pub record HomRotateSum : Type 0 where
  pub rotations : List ℤ
  pub perform_sum : Bool
  pub add_identity_rotation : Bool

pub record HomSumSlots : Type 0 where
  pub k : Option ℕ

module _ {S : Type 0} where
  -- HomReshape.infer_output_shape
  unfoldable pub reshape_output_shape : Torch → List ℤ → HomValue S → Result (HomValue S)
  unfolding copy_shape copy_shape_axis find_axis
  reshape_output_shape torch dims v = do
    output_shape ← or_raise (torch.reshape v.tensor_shape dims) value_error
    elim v.n_axis [
      | none ↦ ok (copy_shape v output_shape)
      | some n ↦ do
        n_dim ← or_raise (get_item? v.tensor_shape n) index_error
        let input_prefix = prod (slice_to v.tensor_shape n)
        let input_suffix = prod (slice_from v.tensor_shape (n +ℤ pos 1))
        axis ←
            or_raise (find_axis output_shape 0 output_shape n_dim input_prefix input_suffix)
              value_error
        ok (copy_shape_axis v output_shape (pos axis))
    ]

  -- The dropped axis of an index.
  unfoldable pub index_output_shape : HomSlice → HomValue S → ℤ → ℕ → Result (HomValue S)
  index_output_shape op v dim size = do
    let idx = if leb_ℤ (pos 0) op.start then op.start else op.start +ℤ pos size
    raise_if (ltb_ℤ idx (pos 0) || leb_ℤ (pos size) idx) index_error
    infer_remove_axis_output_shape v dim

  -- The kept axis of a slice.
  unfoldable pub range_output_shape : HomSlice → HomValue S → ℤ → ℕ → Result (HomValue S)
  unfolding copy_shape
  range_output_shape op v dim size = do
    raise_if (eqb_ℤ op.step (pos 0)) value_error
    let new_len = slice_length size op.start op.end op.step
    raise_if (new_len == 0) value_error
    new_shape ← set_item v.tensor_shape dim new_len
    ok (copy_shape v new_shape)

  -- HomSlice.infer_output_shape
  unfoldable pub slice_output_shape : HomSlice → HomValue S → Result (HomValue S)
  unfolding index_output_shape range_output_shape
  slice_output_shape op v = do
    let dim = to_pos_axis op.dim v.tensor_shape
    raise_if (is_slot_axis dim v.n_axis) value_error
    size ← or_raise (get_item? v.tensor_shape dim) index_error
    if op.drop_dim then index_output_shape op v dim size else range_output_shape op v dim size

  -- HomSqueeze.infer_output_shape
  unfoldable pub squeeze_output_shape : ℤ → HomValue S → Result (HomValue S)
  squeeze_output_shape dim v = do
    let axis = to_pos_axis dim v.tensor_shape
    size ← or_raise (get_item? v.tensor_shape axis) index_error
    raise_if (not (size == 1)) value_error
    infer_remove_axis_output_shape v axis

  -- HomUnsqueeze.infer_output_shape
  unfoldable pub unsqueeze_output_shape : ℤ → HomValue S → HomValue S
  unsqueeze_output_shape dim v =
      infer_insert_axis_output_shape v (to_pos_axis dim (v.tensor_shape ++ 1 ∷ [])) 1

  -- HomRotateSum.infer_output_shape
  unfoldable pub rotate_sum_output_shape : HomRotateSum → HomValue S → HomValue S
  rotate_sum_output_shape op v =
      if op.perform_sum
      then v
      else infer_insert_axis_output_shape v (pos 0)
          (length op.rotations + (if op.add_identity_rotation then 1 else 0))

  -- HomSumSlots.infer_output_shape; `n_slots // k` with neither a value nor `internal_n` is a TypeError.
  unfoldable pub sum_slots_output_shape : HomSumSlots → HomValue S → Option ℕ → Result (HomValue S)
  unfolding post_init
  sum_slots_output_shape op v internal_n = do
    n_slots ← or_raise (first_of v.n_slots internal_n) type_error
    folded ← floor_div n_slots (at_or op.k n_slots)
    ok (post_init (record v { n_slots = some folded }))
