-- ===== src/Torch.antt =====
-- What the program takes from torch, as a parameter: the shape rules of broadcasting and of
-- `reshape`, and the product of an int64 tensor. None of this code is in the repository.
use lattica_studio.Prelude.{
  ℕ, ◌*◌, ◌≤◌, ◌<◌, ◌^◌, ◌-◌, ◌≡◌, ◌≢◌, List, [], ◌∷◌, ◌++◌, Option, some, none, length, get_elem?,
  ltb, if◌then◌else◌,
}
use lattica_studio.Prelude.Int.{ℤ, pos}

abbrev pub Shape : Type 0
Shape = List ℕ

-- `math.prod`
abbrev pub prod : List ℕ → ℕ
prod [] = 1
prod (x ∷ xs) = x * prod xs

-- The dimension that is `j` places from the end, from 0.
abbrev pub from_right : Shape → ℕ → Option ℕ
from_right s j = if ltb j (length s) then get_elem? s (length s - 1 - j) else none

pub record Torch : Type 0 where
  -- `torch.broadcast_shapes`, and none where it raises
  pub broadcast_shapes : List Shape → Option Shape
  -- the shape of `reshape(dims)`, where -1 stands for the size that fits
  pub reshape : Shape → List ℤ → Option Shape
  -- `torch.tensor(xs, dtype=torch.int64).prod().item()`
  pub prod_int64 : List ℕ → ℤ

-- Broadcasting aligns the shapes at their ends: the result has at least the rank of each shape, and
-- keeps each of its sizes other than 1.
pub record BroadcastLaws (torch : Torch) : Type 0 where
  pub rank :
      (before after : List Shape) (s out : Shape)
      → torch.broadcast_shapes (before ++ s ∷ after) ≡ some out
      → length s ≤ length out
  pub size :
      (before after : List Shape) (s out : Shape) (j d : ℕ)
      → torch.broadcast_shapes (before ++ s ∷ after) ≡ some out
      → from_right s j ≡ some d
      → d ≢ 1
      → from_right out j ≡ some d

-- `reshape` keeps the number of entries.
pub record ReshapeLaws (torch : Torch) : Type 0 where
  pub entries :
      (s out : Shape) (dims : List ℤ) → torch.reshape s dims ≡ some out → prod out ≡ prod s

-- The product is exact where it fits into 64 bits.
pub record ProductLaws (torch : Torch) : Type 0 where
  pub exact : (xs : List ℕ) → prod xs < 2 ^ 63 → torch.prod_int64 xs ≡ pos (prod xs)
