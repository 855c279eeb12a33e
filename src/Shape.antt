-- ===== src/Shape.antt =====
-- lattica_build_src/lattica_build/params/shape_tracing.py: the shape rules of the graph. Every
-- function returns the metadata of the result or the class of the exception that it raises.
pub mod Indexer
pub mod Slot
pub mod Insert
pub mod Remove
pub mod Broadcast
pub mod Active
use lattica_studio.Prelude.{
  ℕ, suc, ◌+◌, ◌-◌, ◌%◌, ◌≡◌, List, [], ◌∷◌, ◌++◌, Option, none, some, Bool, true, false, ◌&&◌, not,
  map, length, get_elem?, ltb, ◌==◌, if◌then◌else◌,
}
use lattica_studio.Prelude.Int.{ℤ, pos, ◌+ℤ◌, ◌-ℤ◌, ltb_ℤ}
use lattica_studio.Prelude.Python.{get_item?, slice_to, slice_from, mod_ℤ, eqb_ℤ, leb_ℤ}
use lattica_studio.Result.{
  Result, ok, err, value_error, type_error, index_error, runtime_error, zero_division, raise_if,
  or_raise, ◌>>=◌, ◌>>◌,
}
use lattica_studio.Torch.{Shape, Torch}
use lattica_studio.HomValue.{
  HomValue, to_pos_axis, to_neg_axis, post_init, copy_shape, copy_shape_axis,
}

-- `min(range(rank), key=lambda i: pads[i])`: the first index of a least entry. `i` is the index of
-- the head, and `(best, pad)` the least so far.
unfoldable pub argmin_from : ℕ → ℕ → ℕ → List ℕ → ℕ
argmin_from best pad i [] = best
argmin_from best pad i (p ∷ ps) =
    if ltb p pad then argmin_from i p (suc i) ps else argmin_from best pad (suc i) ps

unfoldable pub argmin : List ℕ → Option ℕ
unfolding argmin_from
argmin [] = none
argmin (p ∷ ps) = some (argmin_from 0 p 1 ps)

-- `(internal_n - dim) % internal_n`
abbrev pub pad : ℕ → ℕ → ℕ
pad internal_n dim = mod_ℤ (pos internal_n -ℤ pos dim) internal_n

pub pads : ℕ → Shape → Result (List ℕ)
pads internal_n [] = ok []
pads internal_n (dim ∷ shape) = do
  raise_if (internal_n == 0) zero_division
  rest ← pads internal_n shape
  ok (pad internal_n dim ∷ rest)

-- The last test of `resolve_n_axis`.
unfoldable pub check_n_slots : Shape → ℕ → ℕ → Option ℕ → Result (Option ℤ)
check_n_slots shape axis internal_n none = ok (some (pos axis))
check_n_slots shape axis internal_n (some n_slots) = do
  size ← or_raise (get_elem? shape axis) index_error
  raise_if (not (n_slots == internal_n) && ltb n_slots size) value_error
  ok (some (pos axis))

unfoldable pub resolve_n_axis : Shape → Option ℤ → Option ℕ → Option ℕ → Result (Option ℤ)
unfolding to_pos_axis pads argmin check_n_slots
resolve_n_axis shape (some n_axis) internal_n n_slots = ok (some (to_pos_axis n_axis shape))
resolve_n_axis shape none none n_slots = ok none
resolve_n_axis shape none (some internal_n) n_slots = do
  ps ← pads internal_n shape
  axis ← or_raise (argmin ps) value_error
  check_n_slots shape axis internal_n n_slots

-- `axis == n_axis`, which is false where `n_axis` is None
abbrev pub is_slot_axis : ℤ → Option ℤ → Bool
is_slot_axis axis none = false
is_slot_axis axis (some n) = eqb_ℤ axis n

abbrev pub dims_of : Option Shape → List Shape
dims_of none = []
dims_of (some dims) = dims ∷ []

module _ {S : Type 0} where
  unfoldable pub infer_insert_axis_output_shape : HomValue S → ℤ → ℕ → HomValue S
  unfolding copy_shape copy_shape_axis
  infer_insert_axis_output_shape v axis size =
      let output_shape = slice_to v.tensor_shape axis ++ size ∷ slice_from v.tensor_shape axis in
      elim v.n_axis [
        | none ↦ copy_shape v output_shape
        | some n ↦ copy_shape_axis v output_shape (n +ℤ (if leb_ℤ axis n then pos 1 else pos 0))
      ]

  -- `infer_remove_axis_output_shape` after its first line.
  unfoldable pub remove_pos_axis : HomValue S → ℤ → Result (HomValue S)
  unfolding copy_shape copy_shape_axis
  remove_pos_axis v axis =
      let output_shape =
        slice_to v.tensor_shape axis ++ slice_from v.tensor_shape (axis +ℤ pos 1) in
      if is_slot_axis axis v.n_axis then err value_error else elim v.n_axis [
        | none ↦ ok (copy_shape v output_shape)
        | some n ↦
            ok (copy_shape_axis v output_shape (n -ℤ (if ltb_ℤ axis n then pos 1 else pos 0)))
      ]

  unfoldable pub infer_remove_axis_output_shape : HomValue S → ℤ → Result (HomValue S)
  unfolding to_pos_axis remove_pos_axis
  infer_remove_axis_output_shape v axis = remove_pos_axis v (to_pos_axis axis v.tensor_shape)

  unfoldable pub infer_reduce_axis_output_shape : HomValue S → ℤ → Bool → Result (HomValue S)
  unfolding infer_remove_axis_output_shape infer_insert_axis_output_shape
  infer_reduce_axis_output_shape v dim keep_dim = do
    res ← infer_remove_axis_output_shape v dim
    ok (if keep_dim then infer_insert_axis_output_shape res dim 1 else res)

  -- The loop of `infer_broadcast_output_shape` over the inputs, against the first one's axis and size.
  unfoldable pub check_inputs : ℤ → ℕ → List (HomValue S) → Result (Unit {0})
  unfolding to_neg_axis
  check_inputs axis size [] = ok tt
  check_inputs axis size (v ∷ vs) = do
    n ← or_raise v.n_axis type_error
    let n_neg = to_neg_axis n v.tensor_shape
    raise_if (not (eqb_ℤ n_neg axis)) value_error
    d ← or_raise (get_item? v.tensor_shape n_neg) index_error
    raise_if (not (d == size)) value_error
    check_inputs axis size vs

  abbrev pub shapes_of : List (HomValue S) → List Shape
  shapes_of = map (λ v. v.tensor_shape)

  -- The checks that every input shares the first one's axis and its size.
  unfoldable pub check_axis : HomValue S → List (HomValue S) → ℤ → Result (Unit {0})
  unfolding check_inputs
  check_axis first others axis = do
    size ← or_raise (get_item? first.tensor_shape axis) index_error
    check_inputs axis size (first ∷ others)

  -- `inputs` is `first` with the `others`; no caller passes none.
  unfoldable pub infer_broadcast_output_shape :
      Torch → HomValue S → List (HomValue S) → Option Shape → Result (HomValue S)
  unfolding copy_shape copy_shape_axis
  infer_broadcast_output_shape torch first others dims = do
    output_shape ←
        or_raise (torch.broadcast_shapes (shapes_of (first ∷ others) ++ dims_of dims)) runtime_error
    elim first.n_axis [
      | none ↦ ok (copy_shape first output_shape)
      | some n ↦
          let axis = to_neg_axis n first.tensor_shape in
          do check_axis first others axis; ok (copy_shape_axis first output_shape axis)
    ]
