-- ===== src/Operators/Slice.antt =====
-- HomSlice with a `slice` key: how long the sliced axis is, and what the other axes keep.
use native.Mathlib.Nat.{div-le_self}
use lattica_studio.Prelude.{
  ℕ, zero, suc, ◌-◌, ◌≤◌, ◌≡◌, refl, Option, some, none, arith, get_elem?, set, false, Bool-cases,
  inl, inr, ltb,
}
use lattica_studio.Prelude.Int.{ℤ, pos, negsuc, ◌+ℤ◌, ◌-ℤ◌, pos_part}
use lattica_studio.Torch.{Shape}
use lattica_studio.HomValue.{HomValue}
use lattica_studio.Operators.{HomSlice, bound, steps, end_bound, slice_length}

steps-le : (d : ℤ) (st : ℕ) → steps d st ≤ pos_part d
steps-le (pos zero) st = omega arith
steps-le (pos (suc d)) st = omega (arith, div-le_self d st)
steps-le (negsuc d) st = omega arith

-- A bound is a position of the range 0 to `size`.
bound-range : (size : ℕ) (i : ℤ) → (c : ℕ) × (bound size (pos 0) (pos size) i ≡ pos c) × (c ≤ size)
unfolding ◌+ℤ◌
bound-range size (pos i) = elim (Bool-cases (ltb size i)) [
  | inl e ↦ (size, ground arith, omega arith)
  | inr e ↦ (i, ground arith, ground arith)
]
bound-range size (negsuc i) = elim (Bool-cases (ltb i size)) [
  | inl e ↦ (size - 1 - i, ground arith, omega arith)
  | inr e ↦ (0, ground arith, omega arith)
]

end_bound-range :
    (size : ℕ) (end : Option ℤ)
    → (c : ℕ) × (end_bound size (pos 0) (pos size) (pos size) end ≡ pos c) × (c ≤ size)
end_bound-range size none = (size, refl, omega arith)
end_bound-range size (some end) = bound-range size end

sub-le : (b a : ℕ) → pos_part (pos b -ℤ pos a) ≤ b
unfolding ◌-ℤ◌
sub-le b a = ground arith

pub slice_length-le :
    (size : ℕ) (start : ℤ) (end : Option ℤ) (st : ℕ) → slice_length size start end (pos st) ≤ size
unfolding slice_length
slice_length-le size start end st =
    let (a, ea, ha) = bound-range size start in
    let (b, eb, hb) = end_bound-range size end in
    rw (ea, eb) (omega (arith, steps-le (pos b -ℤ pos a) st, sub-le b a))

module _ {S : Type 0} (op : HomSlice) (v : HomValue S) (a size st : ℕ) (dim : op.dim ≡ pos a)
    (kept : op.drop_dim ≡ false) (step : op.step ≡ pos (suc st))
    (at : get_elem? v.tensor_shape a ≡ some size) where
  abbrev pub new_len : ℕ
  new_len = slice_length size op.start op.end (pos (suc st))

  abbrev pub sliced : HomValue S
  sliced = record v { tensor_shape = set v.tensor_shape a new_len }
