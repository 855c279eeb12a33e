-- ===== src/Shape/Insert.antt =====
-- `infer_insert_axis_output_shape`, `infer_remove_axis_output_shape` and their composition keep
-- track of the slot axis.
use native.Mathlib.Numerals.{add-one}
use lattica_studio.Prelude.{
  ℕ, zero, suc, ◌+◌, ◌-◌, ◌≤◌, ◌<◌, ◌≡◌, ◌≢◌, refl, List, Option, some, none, arith, length,
  get_elem?, Bool-cases, leb, ltb, if◌then◌else◌, inl, inr,
}
use lattica_studio.Prelude.Int.{ℤ, pos, negsuc, ◌+ℤ◌}
use lattica_studio.Prelude.Splice.{
  insert_at, remove_at, length-insert_at, get_elem?-insert_at_self, get_elem?-insert_at_lt,
  get_elem?-insert_at_ge, length-remove_at, get_elem?-remove_at_lt, get_elem?-remove_at_ge,
}
use lattica_studio.HomValue.{HomValue, to_pos_axis}
use lattica_studio.Shape.{infer_insert_axis_output_shape}
use lattica_studio.Shape.Slot.{IsWellFormed, slot_size, IsAxis, axis_size}

sub_one : (n : ℕ) → suc n - 1 ≡ n
sub_one n = omega arith

-- The axis `n` after an axis is put in at `a`.
abbrev pub shifted : Option ℤ → ℕ → Option ℤ
shifted none a = none
shifted (some (pos n)) a = some (pos (if leb a n then n + 1 else n))
shifted (some (negsuc n)) a = none

pub shifted-keeps :
    (n : Option ℤ) (s : List ℕ) (a size : ℕ)
    → a ≤ length s
    → IsAxis n s
    → IsAxis (shifted n a) (insert_at s a size)
      × (axis_size (shifted n a) (insert_at s a size) ≡ axis_size n s)
shifted-keeps none s a size h w = (tt, refl)
shifted-keeps (some (negsuc n)) s a size h w = absurd w
shifted-keeps (some (pos n)) s a size h w = elim (Bool-cases (leb a n)) [
  | inl e ↦ ground (arith, length-insert_at s a size, get_elem?-insert_at_ge s a n size, add-one n)
  | inr e ↦ ground (arith, length-insert_at s a size, get_elem?-insert_at_lt s a n size)
]

module _ {S : Type 0} (v : HomValue S) (a : ℕ) (size : ℕ) where
  pub insert-eq :
      a ≤ length v.tensor_shape
      → IsWellFormed v
      → infer_insert_axis_output_shape v (pos a) size
        ≡ record v { tensor_shape = insert_at v.tensor_shape a size; n_axis = shifted v.n_axis a }
  unfolding infer_insert_axis_output_shape ◌+ℤ◌ to_pos_axis
  insert-eq h w = ground arith

  pub insert-negsuc-shape :
      a < length v.tensor_shape
      → (infer_insert_axis_output_shape v (negsuc a) size).tensor_shape
        ≡ insert_at v.tensor_shape (length v.tensor_shape - 1 - a) size
  unfolding infer_insert_axis_output_shape
  insert-negsuc-shape h = ground arith

  -- For an axis `a` up to the rank, the value that `infer_insert_axis_output_shape` returns has the
  -- new axis of the given size at `a`, one axis more than the input, and, for a well-formed input, a
  -- valid slot axis of the size that the input's has.
  pub insert_keeps_slot :
      a ≤ length v.tensor_shape
      → IsWellFormed v
      → let r = infer_insert_axis_output_shape v (pos a) size in
        IsWellFormed r
        × (slot_size r ≡ slot_size v)
        × (get_elem? r.tensor_shape a ≡ some size)
        × (length r.tensor_shape ≡ length v.tensor_shape + 1)
  insert_keeps_slot h w =
      let (valid, same) = shifted-keeps v.n_axis v.tensor_shape a size h w in
      rw (insert-eq h w) (
        valid,
        same,
        get_elem?-insert_at_self v.tensor_shape a size h,
        length-insert_at v.tensor_shape a size,
      )

-- The axis `n` after the axis `a`, another one, is taken out.
abbrev pub lowered : Option ℤ → ℕ → Option ℤ
lowered none a = none
lowered (some (pos n)) a = some (pos (if ltb a n then n - 1 else n))
lowered (some (negsuc n)) a = none

pub lowered-keeps :
    (n : Option ℤ) (s : List ℕ) (a : ℕ)
    → a < length s
    → n ≢ some (pos a)
    → IsAxis n s
    → IsAxis (lowered n a) (remove_at s a)
      × (axis_size (lowered n a) (remove_at s a) ≡ axis_size n s)
lowered-keeps none s a h ne w = (tt, refl)
lowered-keeps (some (negsuc n)) s a h ne w = absurd w
lowered-keeps (some (pos zero)) s a h ne w =
    ground (arith, length-remove_at s a, get_elem?-remove_at_lt s a zero)
lowered-keeps (some (pos (suc n))) s a h ne w = elim (Bool-cases (ltb a (suc n))) [
  | inl e ↦ ground (arith, length-remove_at s a, get_elem?-remove_at_ge s a n, sub_one n)
  | inr e ↦ ground (arith, length-remove_at s a, get_elem?-remove_at_lt s a (suc n))
]
