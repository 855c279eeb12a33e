-- ===== src/Shape/Broadcast.antt =====
-- `infer_broadcast_output_shape`: the inputs must be packed along one axis, and the result is packed
-- along it too.
use lattica_studio.Prelude.{
  ℕ, ◌+◌, ◌-◌, ◌≤◌, ◌<◌, ◌≡◌, ◌≢◌, refl, sym, ap, ◌∙◌, List, [], ◌++◌, ◌∷◌, Option, some, arith,
  length, get_elem?, get_elem?-lt, Option-cases, inl, inr, lt→ltb,
}
use lattica_studio.Prelude.Int.{ℤ, pos, ◌+ℤ◌, ◌-ℤ◌}
use lattica_studio.Prelude.Python.{get_item?, eqb_ℤ→eq}
use lattica_studio.Result.{ok}
use lattica_studio.Torch.{Torch, BroadcastLaws, Shape, from_right}
use lattica_studio.HomValue.{HomValue, to_pos_axis, to_neg_axis}
use lattica_studio.Shape.{
  infer_broadcast_output_shape, check_axis, check_inputs, shapes_of, dims_of,
}
use lattica_studio.Shape.Slot.{IsWellFormed, slot_size, get_item?-pos}

module _ {S : Type 0} where
  -- `v` is packed along `axis`, counted from the end, which has the given size.
  abbrev pub IsPacked : ℤ → ℕ → HomValue S → Type 0
  IsPacked axis size v =
      (n : ℤ) × (v.n_axis ≡ some n)
      × (to_neg_axis n v.tensor_shape ≡ axis)
      × (get_item? v.tensor_shape axis ≡ some size)

  abbrev pub AllPacked : ℤ → ℕ → List (HomValue S) → Type 0
  AllPacked axis size [] = Unit
  AllPacked axis size (v ∷ vs) = IsPacked axis size v × AllPacked axis size vs

  check_inputs-AllPacked :
      (axis : ℤ) (size : ℕ) (vs : List (HomValue S))
      → check_inputs axis size vs ≡ ok tt
      → AllPacked axis size vs
  unfolding check_inputs
  check_inputs-AllPacked axis size [] h = tt
  check_inputs-AllPacked axis size (v ∷ vs) h = elim (Option-cases v.n_axis) [
    | inl e ↦ ground arith
    | inr (n, e) ↦
        let neg = to_neg_axis n v.tensor_shape in
        (
          (n, e, ground (arith, eqb_ℤ→eq neg axis), ground (arith, eqb_ℤ→eq neg axis)),
          ground (arith, check_inputs-AllPacked axis size vs),
        )
  ]

  check_axis-AllPacked :
      (first : HomValue S) (others : List (HomValue S)) (axis : ℤ) (size : ℕ)
      → get_item? first.tensor_shape axis ≡ some size
      → check_axis first others axis ≡ ok tt
      → AllPacked axis size (first ∷ others)
  unfolding check_axis
  check_axis-AllPacked first others axis size e h =
      check_inputs-AllPacked axis size (first ∷ others) (rw e at h)

get_item?-to_neg_axis :
    (s : Shape) (k : ℕ) → k < length s → get_item? s (to_neg_axis (pos k) s) ≡ get_elem? s k
unfolding to_neg_axis ◌-ℤ◌
get_item?-to_neg_axis s k h = ground arith

to_pos-to_neg :
    (k : ℕ) (s t : Shape)
    → k < length s
    → length s ≤ length t
    → to_pos_axis (to_neg_axis (pos k) s) t ≡ pos (k + (length t - length s))
unfolding to_pos_axis to_neg_axis ◌-ℤ◌ ◌+ℤ◌
to_pos-to_neg k s t h l = ground arith

to_neg-kept :
    (k : ℕ) (s t : Shape)
    → k < length s
    → length s ≤ length t
    → to_neg_axis (pos (k + (length t - length s))) t ≡ to_neg_axis (pos k) s
unfolding to_neg_axis ◌-ℤ◌
to_neg-kept k s t h l = ground arith

-- The entry `k` from the start, read from the end.
from_right_lem :
    (s : Shape) (k : ℕ) → k < length s → from_right s (length s - 1 - k) ≡ get_elem? s k
from_right_lem s k h =
    let e : length s - 1 - (length s - 1 - k) ≡ k = omega arith in
    rw (lt→ltb (length s - 1 - k) (length s) (omega arith)) (rw e)

module _ {S : Type 0} (torch : Torch) (first : HomValue S) (others : List (HomValue S))
    (dims : Option Shape) where
  broadcast-ok :
      (k : ℕ) (r : HomValue S)
      → first.n_axis ≡ some (pos k)
      → infer_broadcast_output_shape torch first others dims ≡ ok r
      → (out : Shape) × (torch.broadcast_shapes
            (first.tensor_shape ∷ (shapes_of others ++ dims_of dims))
          ≡ some out)
        × (r ≡ record first {
          tensor_shape = out;
          n_axis = some (to_pos_axis (to_neg_axis (pos k) first.tensor_shape) out);
        })
        × (check_axis first others (to_neg_axis (pos k) first.tensor_shape) ≡ ok tt)
  unfolding infer_broadcast_output_shape
  broadcast-ok k r e h =
      elim (Option-cases
        (torch.broadcast_shapes (first.tensor_shape ∷ (shapes_of others ++ dims_of dims)))) [
          | inl f ↦ ground arith
          | inr (out, f) ↦ (out, f, ground arith, ground arith)
        ]

  module _ (laws : BroadcastLaws torch) (k size : ℕ) (r : HomValue S) where
    abbrev from_end : ℤ
    from_end = to_neg_axis (pos k) first.tensor_shape

    -- If broadcasting follows its documented rules and `infer_broadcast_output_shape` returns `r` for a
    -- first input whose slot axis `k` lies in its shape and has the given size, then the slot axis of
    -- `r` lies in its shape and is the same axis, counted from the end, as the first input's. Every input
    -- has that slot axis, counted from the end, with that size, and so has `r` where the size is not 1.
    pub broadcast_keeps_slot :
        first.n_axis ≡ some (pos k)
        → get_elem? first.tensor_shape k ≡ some size
        → infer_broadcast_output_shape torch first others dims ≡ ok r
        → IsWellFormed r
          × ((n : ℤ) × (r.n_axis ≡ some n) × (to_neg_axis n r.tensor_shape ≡ from_end))
          × AllPacked from_end size (first ∷ others)
          × (size ≢ 1 → slot_size r ≡ some size)
    broadcast_keeps_slot e at h =
        let (out, f, same, checked) = broadcast-ok k r e h in
        let fits : k < length first.tensor_shape = get_elem?-lt first.tensor_shape k at in
        let grows : length first.tensor_shape ≤ length out =
          laws.rank [] (shapes_of others ++ dims_of dims) first.tensor_shape out f in
        rw (same, to_pos-to_neg k first.tensor_shape out fits grows)
          (
            omega arith,
            (
              pos (k + (length out - length first.tensor_shape)),
              refl,
              to_neg-kept k first.tensor_shape out fits grows,
            ),
            check_axis-AllPacked first others from_end size
                (get_item?-to_neg_axis first.tensor_shape k fits ∙ at) checked,
            λ other.
                get_item?-pos out (k + (length out - length first.tensor_shape)) (omega arith)
                ∙ sym (
                    from_right_lem out (k + (length out - length first.tensor_shape)) (omega arith))
                ∙ ap (from_right out) (omega arith)
                ∙ laws.size [] (shapes_of others ++ dims_of dims) first.tensor_shape out
                    (length first.tensor_shape - 1 - k) size f
                    (from_right_lem first.tensor_shape k fits ∙ at) other,
          )
