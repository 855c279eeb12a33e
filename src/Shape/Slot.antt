-- ===== src/Shape/Slot.antt =====
-- The slot axis of a value: where it lies, and its size. The shape rules keep both.
use lattica_studio.Prelude.{ℕ, ◌<◌, ◌≡◌, Option, some, none, arith, length, get_elem?}
use lattica_studio.Prelude.Int.{ℤ, pos, negsuc}
use lattica_studio.Prelude.Python.{get_item?}
use lattica_studio.Torch.{Shape}
use lattica_studio.HomValue.{HomValue}

-- An axis of the shape, counted from its start, or none.
abbrev pub IsAxis : Option ℤ → Shape → Type 0
IsAxis none s = Unit
IsAxis (some (pos k)) s = k < length s
IsAxis (some (negsuc _)) s = ⊥

abbrev pub axis_size : Option ℤ → Shape → Option ℕ
axis_size none s = none
axis_size (some axis) s = get_item? s axis

module _ {S : Type 0} where
  abbrev pub IsWellFormed : HomValue S → Type 0
  IsWellFormed v = IsAxis v.n_axis v.tensor_shape

  abbrev pub slot_size : HomValue S → Option ℕ
  slot_size v = axis_size v.n_axis v.tensor_shape

pub get_item?-pos : (s : Shape) (k : ℕ) → k < length s → get_item? s (pos k) ≡ get_elem? s k
get_item?-pos s k h = ground arith
