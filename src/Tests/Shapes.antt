-- ===== src/Tests/Shapes.antt =====
-- The shape rules and the trace at concrete values.
use lattica_studio.Prelude.{
  ℕ, ◌+◌, ◌≤◌, ◌<◌, ◌≡◌, ◌≢◌, refl, ap₂, List, [], ◌∷◌, ◌++◌, Option, none, some, Bool, true, false,
  ◌⊎◌, inl, inr, arith, length, map, get_elem?, ◌==◌, ==_iff, Bool-cases, if◌then◌else◌,
}
use lattica_studio.Prelude.Int.{ℤ, pos, negsuc, pos_part, ◌+ℤ◌, ◌-ℤ◌}
use lattica_studio.Prelude.Splice.{remove_at}
use lattica_studio.Result.{ok, err, value_error}
use lattica_studio.Torch.{Shape, Torch, prod, BroadcastLaws, ReshapeLaws}
use lattica_studio.HomValue.{HomValue, post_init, copy_shape_axis, to_pos_axis, to_neg_axis}
use lattica_studio.Shape.{
  infer_insert_axis_output_shape, infer_remove_axis_output_shape, infer_reduce_axis_output_shape,
  infer_broadcast_output_shape, check_axis, check_inputs,
}
use lattica_studio.Shape.Slot.{IsWellFormed, slot_size}
use lattica_studio.Shape.Insert.{insert_keeps_slot}
use lattica_studio.Shape.Remove.{remove_keeps_slot, reduce_negative_misplaced}
use lattica_studio.Shape.Broadcast.{broadcast_keeps_slot, AllPacked}
use lattica_studio.Shape.Indexer.{
  Entry, ellipsis, index, tuple, ellipsis_count, expand_ellipsis, expand_entries, ellipsis_index,
  active_from, is_full_slice, resolve_single_axis_index,
}
use lattica_studio.Shape.Active.{expand_ellipsis_total, IsTooLong}
use lattica_studio.Operators.{
  HomSlice, squeeze_output_shape, unsqueeze_output_shape, reshape_output_shape,
}
use lattica_studio.Operators.Squeeze.{squeeze-unsqueeze}
use lattica_studio.Operators.Reshape.{reshape_keeps_slot, Reshaped}

abbrev value : HomValue ℕ
value = record {
  id = none;
  tensor_shape = 2 ∷ 3 ∷ 4 ∷ [];
  n_axis = some (pos 1);
  active_rows = none;
  active_cols = none;
  pt_scale = 1;
  custom_input_ref = none;
  n_slots = none;
}

two_not_one : ◌≡◌ {A = Option ℤ} (some (pos 1)) (some (pos 2)) → ⊥
two_not_one e = cc

insert_keeps_slot_example :
    let r = infer_insert_axis_output_shape value (pos 1) 7 in
    IsWellFormed r
    × (slot_size r ≡ slot_size value)
    × (get_elem? r.tensor_shape 1 ≡ some 7)
    × (length r.tensor_shape ≡ length value.tensor_shape + 1)
insert_keeps_slot_example = insert_keeps_slot value 1 7 (omega arith) (omega arith)

remove_keeps_slot_example :
    (value.n_axis ≡ some (pos 2) → infer_remove_axis_output_shape value (pos 2) ≡ err value_error)
    × (value.n_axis ≢ some (pos 2)
        → (r : HomValue ℕ) × (infer_remove_axis_output_shape value (pos 2) ≡ ok r)
          × IsWellFormed r
          × (r.tensor_shape ≡ remove_at value.tensor_shape 2)
          × (slot_size r ≡ slot_size value))
    × (infer_remove_axis_output_shape value (negsuc 0)
        ≡ infer_remove_axis_output_shape value (pos 2))
remove_keeps_slot_example = remove_keeps_slot value 2 (omega arith) (omega arith)

reduce_negative_misplaced_example :
    infer_reduce_axis_output_shape value (negsuc 0) true
    ≢ infer_reduce_axis_output_shape value (pos 2) true
reduce_negative_misplaced_example =
    reduce_negative_misplaced value 0 (omega arith) 3 two_not_one (omega arith) refl (omega arith)

squeeze-unsqueeze_example :
    ((a : ℕ)
      → a ≤ 3
      → squeeze_output_shape (pos a) (unsqueeze_output_shape (pos a) value) ≡ ok value)
    × ((k : ℕ)
        → k ≤ 3
        → squeeze_output_shape (negsuc k) (unsqueeze_output_shape (negsuc k) value) ≡ ok value)
squeeze-unsqueeze_example = squeeze-unsqueeze value (omega arith)

abbrev slice : HomSlice
slice = record { dim = pos 2; start = pos 1; end = none; step = pos 2; drop_dim = false }

-- A torch that broadcasts equal shapes, and reshapes to positive sizes.
unfoldable same_shape : Shape → Shape → Bool
same_shape [] [] = true
same_shape (x ∷ s) (y ∷ t) = if x == y then same_shape s t else false
same_shape [] (y ∷ t) = false
same_shape (x ∷ s) [] = false

same_shape-eq : (s t : Shape) → same_shape s t ≡ true → s ≡ t
unfolding same_shape
same_shape-eq [] [] h = refl
same_shape-eq (x ∷ s) (y ∷ t) h = elim (Bool-cases (x == y)) [
  | inl e ↦ ap₂ (λ a b. a ∷ b) ((==_iff x y).0 e) (same_shape-eq s t (ground arith))
  | inr e ↦ ground arith
]
same_shape-eq [] (y ∷ t) h = cc
same_shape-eq (x ∷ s) [] h = cc

same_shape_refl : (s : Shape) → same_shape s s ≡ true
unfolding same_shape
same_shape_refl [] = refl
same_shape_refl (x ∷ s) = let more = same_shape_refl s in ground arith

abbrev all_same : Shape → List Shape → Bool
all_same s [] = true
all_same s (t ∷ ts) = if same_shape t s then all_same s ts else false

abbrev broadcast_equal : List Shape → Option Shape
broadcast_equal [] = none
broadcast_equal (s ∷ ts) = if all_same s ts then some s else none

abbrev torch : Torch
torch = record {
  broadcast_shapes = broadcast_equal;
  reshape = λ s dims.
      let out : Shape = map pos_part dims in if prod out == prod s then some out else none;
  prod_int64 = λ xs. pos (prod xs);
}

all_same-eq :
    (b : Shape) (before after : List Shape) (s : Shape)
    → all_same b (before ++ s ∷ after) ≡ true
    → s ≡ b
all_same-eq b [] after s h = same_shape-eq s b (ground arith)
all_same-eq b (t ∷ before) after s h = all_same-eq b before after s (ground arith)

broadcast-eq :
    (before after : List Shape) (s out : Shape)
    → broadcast_equal (before ++ s ∷ after) ≡ some out
    → s ≡ out
broadcast-eq [] after s out h = ground arith
broadcast-eq (b ∷ before) after s out h = elim (Bool-cases (all_same b (before ++ s ∷ after))) [
  | inl e ↦ let first = all_same-eq b before after s e in ground arith
  | inr e ↦ ground arith
]

torch-BroadcastLaws : BroadcastLaws torch
torch-BroadcastLaws = record {
  rank = λ before after s out h. let e = broadcast-eq before after s out h in rw e (omega arith);
  size = λ before after s out j d h at ne. let e = broadcast-eq before after s out h in rw e at at;
}

torch-ReshapeLaws : ReshapeLaws torch
torch-ReshapeLaws = record { entries = λ s out dims h. reshape-prod s out (map pos_part dims) h }
  where
    reshape-prod :
        (s out new : Shape)
        → (if prod new == prod s then some new else none) ≡ some out
        → prod out ≡ prod s
    reshape-prod s out new h = ground arith

abbrev three : ℕ
three = 3

broadcast_runs : infer_broadcast_output_shape torch value (value ∷ []) none ≡ ok value
unfolding infer_broadcast_output_shape copy_shape_axis post_init to_pos_axis to_neg_axis check_axis
    check_inputs same_shape ◌+ℤ◌ ◌-ℤ◌
broadcast_runs = refl

broadcast_keeps_slot_example :
    IsWellFormed value
    × ((n : ℤ) × (value.n_axis ≡ some n) × (to_neg_axis n value.tensor_shape ≡ negsuc 1))
    × AllPacked (negsuc 1) 3 (value ∷ value ∷ [])
    × (three ≢ 1 → slot_size value ≡ some 3)
unfolding to_neg_axis ◌-ℤ◌
broadcast_keeps_slot_example =
    broadcast_keeps_slot torch value (value ∷ []) none torch-BroadcastLaws 1 three value refl refl
      broadcast_runs

reshape_keeps_slot_example :
    (torch.reshape value.tensor_shape (pos 2 ∷ pos 3 ∷ pos 2 ∷ pos 2 ∷ []) ≡ none
      → reshape_output_shape torch (pos 2 ∷ pos 3 ∷ pos 2 ∷ pos 2 ∷ []) value ≡ err value_error)
    × ((s : Shape)
        → torch.reshape value.tensor_shape (pos 2 ∷ pos 3 ∷ pos 2 ∷ pos 2 ∷ []) ≡ some s
        → (prod s ≡ prod value.tensor_shape)
          × Reshaped torch torch-ReshapeLaws
              (pos 2 ∷ pos 3 ∷ pos 2 ∷ pos 2 ∷ [])
              value
              1
              3
              refl
              refl
              s
              (reshape_output_shape torch (pos 2 ∷ pos 3 ∷ pos 2 ∷ pos 2 ∷ []) value))
reshape_keeps_slot_example =
    reshape_keeps_slot torch torch-ReshapeLaws (pos 2 ∷ pos 3 ∷ pos 2 ∷ pos 2 ∷ []) value 1 3 refl
      refl

abbrev key : List Entry
key = ellipsis ∷ index (pos 2) ∷ []

expand_ellipsis_total_example :
    (ellipsis_count key ≤ 1
      → ¬ IsTooLong key 3
      → (es : List Entry) × (expand_ellipsis (tuple key) 3 ≡ ok es) × (length es ≡ 3))
    × ((1 < ellipsis_count key) ⊎ IsTooLong key 3 → expand_ellipsis (tuple key) 3 ≡ err value_error)
expand_ellipsis_total_example = expand_ellipsis_total key 3

key_runs : resolve_single_axis_index (tuple key) 3 ≡ ok (2, index (pos 2))
unfolding resolve_single_axis_index expand_ellipsis expand_entries ellipsis_count ellipsis_index
    active_from is_full_slice
key_runs = refl
