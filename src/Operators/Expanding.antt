-- ===== src/Operators/Expanding.antt =====
-- The axis of HomExpand of lattica_build_src/lattica_build/operators/slots/h_expand.py.
use native.Mathlib.Numerals.{add-one}
use lattica_studio.Prelude.{
  ℕ, zero, suc, ◌-◌, ◌≤◌, ◌<◌, ◌≡◌, refl, ap, ◌∙◌, get_elem?, [], ◌∷◌, Option, none, some, length,
  set, length-set, arith, inl, inr, leb, Bool-cases,
}
use lattica_studio.Prelude.Int.{ℤ, pos, negsuc}
use lattica_studio.Prelude.Splice.{insert_at, length-insert_at, get_elem?-insert_at_self}
use lattica_studio.Result.{ok, type_error, or_raise, ◌>>=◌}
use lattica_studio.Torch.{Shape}
use lattica_studio.HomValue.{HomValue, to_pos_axis, copy_shape, post_init}
use lattica_studio.Shape.{infer_insert_axis_output_shape}
use lattica_studio.Shape.Slot.{IsWellFormed, IsAxis}
use lattica_studio.Shape.Insert.{insert-eq, shifted}
use lattica_studio.Shape.Remove.{to_pos_axis-negsuc}
use lattica_studio.Operators.Evaluation.{HomExpand, expand_output_shape, widened}

set-insert_at_ge :
    (s : Shape) (a k x y : ℕ)
    → a ≤ k
    → k < length s
    → set (insert_at s a x) (suc k) y ≡ insert_at (set s k y) a x
set-insert_at_ge s zero k x y h l = refl
set-insert_at_ge [] (suc a) k x y h l = elim l [ ]
set-insert_at_ge (z ∷ s) (suc a) zero x y h l = elim h [ ]
set-insert_at_ge (z ∷ s) (suc a) (suc k) x y h l =
    ap (λ t. z ∷ t) (set-insert_at_ge s a k x y (omega arith) (omega arith))

set-insert_at_lt :
    (s : Shape) (a k x y : ℕ)
    → k < a
    → k < length s
    → set (insert_at s a x) k y ≡ insert_at (set s k y) a x
set-insert_at_lt s zero k x y h l = elim h [ ]
set-insert_at_lt [] (suc a) k x y h l = elim l [ ]
set-insert_at_lt (z ∷ s) (suc a) zero x y h l = refl
set-insert_at_lt (z ∷ s) (suc a) (suc k) x y h l =
    ap (λ t. z ∷ t) (set-insert_at_lt s a k x y (omega arith) (omega arith))

-- The shape with the ring's size at the slot axis, where both are given.
abbrev pub at_ring : Option ℕ → Option ℤ → Shape → Shape
at_ring (some internal_n) (some (pos k)) s = set s k internal_n
at_ring _ _ s = s

length-at_ring :
    (internal_n : Option ℕ) (n : Option ℤ) (s : Shape) → length (at_ring internal_n n s) ≡ length s
length-at_ring none n s = refl
length-at_ring (some internal_n) none s = refl
length-at_ring (some internal_n) (some (negsuc k)) s = refl
length-at_ring (some internal_n) (some (pos k)) s = length-set s k internal_n

module _ {S : Type 0} (v : HomValue S) (a size : ℕ) where
  -- A value of slot axis `n` and shape `s`, after the new axis is put in at `a`.
  abbrev with_axis : Option ℤ → Shape → HomValue S
  with_axis n s = record v { tensor_shape = insert_at s a size; n_axis = shifted n a }

  widened-with_axis :
      (internal_n : Option ℕ) (n : Option ℤ) (s : Shape)
      → a ≤ length s
      → IsAxis n s
      → widened internal_n (shifted n a) (with_axis n s) ≡ ok (with_axis n (at_ring internal_n n s))
  unfolding copy_shape post_init to_pos_axis
  widened-with_axis none n s h w = refl
  widened-with_axis (some internal_n) none s h w = refl
  widened-with_axis (some internal_n) (some (negsuc k)) s h w = absurd w
  widened-with_axis (some internal_n) (some (pos k)) s h w = elim (Bool-cases (leb a k)) [
    | inl e ↦
        let moved = set-insert_at_ge s a k size internal_n (ground arith) w in
        ground (arith, length-insert_at s a size, moved, add-one k)
    | inr e ↦
        let stays = set-insert_at_lt s a k size internal_n (ground arith) w in
        ground (arith, length-insert_at s a size, stays)
  ]

  -- The new axis at `a`, in the shape that already has the ring's size at the slot axis.
  abbrev pub expanded : Option ℕ → HomValue S
  expanded internal_n = with_axis v.n_axis (at_ring internal_n v.n_axis v.tensor_shape)

expand-run :
    {S : Type 0} (internal_n : Option ℕ) (op : HomExpand) (v : HomValue S) (n_slots : ℕ)
    → v.n_slots ≡ some n_slots
    → expand_output_shape internal_n op v ≡ (
        let axis = to_pos_axis op.expand_axis v.tensor_shape in
        let output = infer_insert_axis_output_shape v axis n_slots in
        widened internal_n output.n_axis output)
unfolding expand_output_shape
expand-run internal_n op v n_slots slots i = do
  n_slots' ← or_raise (slots i) type_error
  let output = infer_insert_axis_output_shape v (to_pos_axis op.expand_axis v.tensor_shape) n_slots'
  widened internal_n output.n_axis output

-- A negative axis `-1 - j` of HomExpand, up to the rank of a well-formed input with a slot count, is
-- counted in the input's shape: the new axis, which has the slot count as its size, is put in at
-- `rank - 1 - j`. The slot axis, moved by one if it does not lie before that axis, has the ring's size
-- where that is given. In the shape of the result the number `-1 - j` names the axis one place later.
pub expand_negative_misplaced :
    {S : Type 0} (internal_n : Option ℕ) (op : HomExpand) (v : HomValue S) (j n_slots : ℕ)
    → j < length v.tensor_shape
    → IsWellFormed v
    → v.n_slots ≡ some n_slots
    → op.expand_axis ≡ negsuc j
    → let a = length v.tensor_shape - 1 - j in
      let r = expanded v a n_slots internal_n in
      (expand_output_shape internal_n op v ≡ ok r)
      × (get_elem? r.tensor_shape a ≡ some n_slots)
      × (to_pos_axis (negsuc j) r.tensor_shape ≡ pos (suc a))
expand_negative_misplaced internal_n op v j n_slots h w slots e =
    let a = length v.tensor_shape - 1 - j in
    let shape = at_ring internal_n v.n_axis v.tensor_shape in
    let same_rank = length-at_ring internal_n v.n_axis v.tensor_shape in
    let fits : a ≤ length shape = omega arith in
    let longer = length-insert_at shape a n_slots in
    (
      expand-run internal_n op v n_slots slots
          ∙ rw (e, to_pos_axis-negsuc j v.tensor_shape h, insert-eq v a n_slots (omega arith) w)
              (widened-with_axis v a n_slots internal_n v.n_axis v.tensor_shape (omega arith) w),
      get_elem?-insert_at_self shape a n_slots fits,
      to_pos_axis-negsuc j (insert_at shape a n_slots) (omega arith) ∙ ap pos (omega arith),
    )
