-- ===== src/Shape/Remove.antt =====
-- `infer_remove_axis_output_shape` and `infer_reduce_axis_output_shape` on every axis of the shape.
use lattica_studio.Prelude.{
  ℕ, zero, suc, ◌+◌, ◌-◌, ◌<◌, ◌≡◌, ◌≢◌, refl, ap, ◌∙◌, List, [], ◌∷◌, Option, some, none, arith,
  length, get_elem?, set, get_elem?-set_self, true,
}
use lattica_studio.Prelude.Int.{ℤ, pos, negsuc, ◌+ℤ◌, ◌-ℤ◌}
use lattica_studio.Prelude.Splice.{
  insert_at, remove_at, drop_one, length-remove_at, get_elem?-insert_at_ge, get_elem?-remove_at_lt,
}
use lattica_studio.Result.{Result, ok, err, value_error}
use lattica_studio.Torch.{Shape}
use lattica_studio.HomValue.{HomValue, to_pos_axis}
use lattica_studio.Shape.{
  remove_pos_axis, infer_remove_axis_output_shape, infer_reduce_axis_output_shape,
}
use lattica_studio.Shape.Slot.{IsWellFormed, slot_size, IsAxis}
use lattica_studio.Shape.Insert.{shifted, lowered, lowered-keeps, insert-eq, insert-negsuc-shape}

pub to_pos_axis-negsuc :
    (k : ℕ) (s : Shape) → k < length s → to_pos_axis (negsuc k) s ≡ pos (length s - 1 - k)
unfolding to_pos_axis ◌+ℤ◌
to_pos_axis-negsuc k s h = ground arith

module _ {S : Type 0} (v : HomValue S) where
  abbrev pub removed : ℕ → HomValue S
  removed a = record v { tensor_shape = remove_at v.tensor_shape a; n_axis = lowered v.n_axis a }

  pub remove-ok :
      (a : ℕ)
      → a < length v.tensor_shape
      → v.n_axis ≢ some (pos a)
      → IsWellFormed v
      → infer_remove_axis_output_shape v (pos a) ≡ ok (removed a)
  unfolding infer_remove_axis_output_shape to_pos_axis ◌+ℤ◌ ◌-ℤ◌
  remove-ok a h ne w = ground arith

  remove-slot :
      (a : ℕ) → v.n_axis ≡ some (pos a) → infer_remove_axis_output_shape v (pos a) ≡ err value_error
  unfolding infer_remove_axis_output_shape to_pos_axis
  remove-slot a e = ground arith

  remove-negsuc :
      (k : ℕ)
      → k < length v.tensor_shape
      → infer_remove_axis_output_shape v (negsuc k)
        ≡ infer_remove_axis_output_shape v (pos (length v.tensor_shape - 1 - k))
  unfolding infer_remove_axis_output_shape
  remove-negsuc k h = ap (remove_pos_axis v) (to_pos_axis-negsuc k v.tensor_shape h)

  -- For a well-formed value and an axis `a` of its shape, `infer_remove_axis_output_shape` raises
  -- ValueError if `a` is the slot axis. Otherwise it returns a well-formed value whose shape is the
  -- input's without the entry at `a`, and whose slot axis has the size that the input's has. The same
  -- axis counted from the end, `a - rank`, gives the same result.
  pub remove_keeps_slot :
      (a : ℕ)
      → a < length v.tensor_shape
      → IsWellFormed v
      → (v.n_axis ≡ some (pos a) → infer_remove_axis_output_shape v (pos a) ≡ err value_error)
        × (v.n_axis ≢ some (pos a)
            → (r : HomValue S) × (infer_remove_axis_output_shape v (pos a) ≡ ok r)
              × IsWellFormed r
              × (r.tensor_shape ≡ remove_at v.tensor_shape a)
              × (slot_size r ≡ slot_size v))
        × (infer_remove_axis_output_shape v (negsuc (length v.tensor_shape - 1 - a))
            ≡ infer_remove_axis_output_shape v (pos a))
  remove_keeps_slot a h w = (
    remove-slot a,
    λ ne.
        let (valid, same) = lowered-keeps v.n_axis v.tensor_shape a h ne w in
        (removed a, remove-ok a h ne w, valid, refl, same),
    remove-negsuc (length v.tensor_shape - 1 - a) (omega arith)
        ∙ ap (λ k. infer_remove_axis_output_shape v (pos k)) (omega arith),
  )

insert_at-remove_at :
    (s : List ℕ) (a x : ℕ) → a < length s → insert_at (remove_at s a) a x ≡ set s a x
insert_at-remove_at [] a x h = elim h [ ]
insert_at-remove_at (y ∷ s) zero x h = refl
insert_at-remove_at (y ∷ s) (suc a) x h =
    rw (drop_one y s a) (ap (λ t. y ∷ t) (insert_at-remove_at s a x (omega arith)))

shifted-lowered :
    (n : Option ℤ) (s : Shape) (a : ℕ) → n ≢ some (pos a) → IsAxis n s → shifted (lowered n a) a ≡ n
shifted-lowered none s a ne w = refl
shifted-lowered (some (negsuc n)) s a ne w = absurd w
shifted-lowered (some (pos n)) s a ne w = ground arith

module _ {S : Type 0} (v : HomValue S) (a : ℕ) (h : a < length v.tensor_shape) where
  lowered-IsWellFormed : v.n_axis ≢ some (pos a) → IsWellFormed v → IsWellFormed (removed v a)
  lowered-IsWellFormed ne w = (lowered-keeps v.n_axis v.tensor_shape a h ne w).0

  -- For a well-formed value and an axis `a` of its shape that is not the slot axis, the reduction over
  -- `a` that keeps the axis returns the value with the size at `a` set to 1, the rank and the slot axis
  -- unchanged.
  pub reduce_keep_dim :
      v.n_axis ≢ some (pos a)
      → IsWellFormed v
      → infer_reduce_axis_output_shape v (pos a) true
        ≡ ok (record v { tensor_shape = set v.tensor_shape a 1 })
  unfolding infer_reduce_axis_output_shape
  reduce_keep_dim ne w = rw (remove-ok v a h ne w) (
      ap ok (
        insert-eq (removed v a) a 1 (omega (arith, length-remove_at v.tensor_shape a h))
          (lowered-IsWellFormed ne w)
        ∙ λ i. record v {
          tensor_shape = insert_at-remove_at v.tensor_shape a 1 h i;
          n_axis = shifted-lowered v.n_axis v.tensor_shape a ne w i;
        }))

-- The axis `k + 1` places from the end, with another axis before it.
module _ {S : Type 0} (v : HomValue S) (k : ℕ) (h : k + 1 < length v.tensor_shape) where
  -- where the kept axis lands, and where it belongs
  abbrev landed : ℕ
  landed = length v.tensor_shape - 2 - k

  abbrev meant : ℕ
  meant = length v.tensor_shape - 1 - k

  abbrev shape_at : Result (HomValue S) → Option ℕ
  shape_at (ok r) = get_elem? r.tensor_shape meant
  shape_at (err e) = none

  meant-lt : meant < length v.tensor_shape
  meant-lt = omega arith

  length-rest : length (remove_at v.tensor_shape meant) + 1 ≡ length v.tensor_shape
  length-rest = length-remove_at v.tensor_shape meant meant-lt

  shape_at-negsuc :
      v.n_axis ≢ some (pos meant)
      → IsWellFormed v
      → shape_at (infer_reduce_axis_output_shape v (negsuc k) true)
        ≡ get_elem? v.tensor_shape landed
  unfolding infer_reduce_axis_output_shape
  shape_at-negsuc ne w =
      rw (remove-negsuc v k (omega arith), remove-ok v meant meant-lt ne w)
        (rw (insert-negsuc-shape (removed v meant) k 1 (omega (arith, length-rest))) (
          cc (
            place,
            step,
            get_elem?-insert_at_ge rest landed landed 1 (omega arith) (omega (arith, length-rest)),
            get_elem?-remove_at_lt v.tensor_shape meant landed (omega arith),
          )))
    where
      rest : List ℕ
      rest = remove_at v.tensor_shape meant

      place : length rest - 1 - k ≡ landed
      place = omega (arith, length-rest)

      step : meant ≡ suc landed
      step = omega arith

  -- For a well-formed value and an axis counted from the end that is neither the first axis nor the
  -- slot axis, if the axis before it has a size other than 1, then the reduction that keeps the axis
  -- gives another result than the reduction over the same axis counted from the start.
  pub reduce_negative_misplaced :
      (d : ℕ)
      → v.n_axis ≢ some (pos meant)
      → IsWellFormed v
      → get_elem? v.tensor_shape landed ≡ some d
      → d ≢ 1
      → infer_reduce_axis_output_shape v (negsuc k) true
        ≢ infer_reduce_axis_output_shape v (pos meant) true
  reduce_negative_misplaced d ne w at other same = other (
      cc (
        at,
        ap shape_at same,
        shape_at-negsuc ne w,
        ap shape_at (reduce_keep_dim v meant meant-lt ne w),
        get_elem?-set_self v.tensor_shape meant 1 meant-lt,
      ))
