-- ===== src/Operators/Reshape.antt =====
-- HomReshape keeps the slot axis in place.
use lattica_studio.Prelude.{
  ℕ, zero, suc, ◌≤◌, ◌<◌, ◌≡◌, refl, ap, ◌∙◌, List, [], ◌∷◌, some, none, arith, length, get_elem?,
  get_elem?-lt, true, ◌&&◌, Bool-cases, Option-cases, inl, inr, take, drop, ◌==◌,
}
use lattica_studio.Prelude.Int.{ℤ, pos, ◌+ℤ◌}
use lattica_studio.Prelude.Python.{slice_to, slice_from}
use lattica_studio.Result.{Result, ok, err, value_error, ◌>>=◌, or_raise}
use lattica_studio.Torch.{Shape, Torch, prod, ReshapeLaws}
use lattica_studio.HomValue.{HomValue, to_pos_axis, post_init, copy_shape_axis}
use lattica_studio.Shape.Slot.{get_item?-pos}
use lattica_studio.Operators.{find_axis, reshape_output_shape}

-- The axis `k` fits: it has the size, and as many entries before and after it as asked for.
pub record Fits (s : Shape) (k n_dim before after : ℕ) : Type 0 where
  pub is_size : get_elem? s k ≡ some n_dim
  pub as_before : prod (take k s) ≡ before
  pub as_after : prod (drop (suc k) s) ≡ after

drop-at :
    (s : Shape) (i : ℕ) (d : ℕ) (ds : Shape)
    → drop i s ≡ d ∷ ds
    → (get_elem? s i ≡ some d) × (drop (suc i) s ≡ ds)
drop-at [] zero d ds h = cc
drop-at [] (suc i) d ds h = cc
drop-at (x ∷ s) zero d ds h = ground arith
drop-at (x ∷ s) (suc i) d ds h = drop-at s i d ds h

slice_to-pos : (s : Shape) (k : ℕ) → k < length s → slice_to s (pos k) ≡ take k s
slice_to-pos s k h = ground arith

slice_from-pos : (s : Shape) (k : ℕ) → k < length s → slice_from s (pos k +ℤ pos 1) ≡ drop (suc k) s
unfolding ◌+ℤ◌
slice_from-pos s k h = ground arith

drop-past : (s : Shape) (i k : ℕ) → drop i s ≡ [] → i ≤ k → get_elem? s k ≡ none
drop-past [] i k h le = refl
drop-past (x ∷ s) zero k h le = cc
drop-past (x ∷ s) (suc i) zero h le = absurd (omega arith)
drop-past (x ∷ s) (suc i) (suc k) h le = drop-past s i k h (omega arith)

tests : (a b c d e f : ℕ) → (a == b && (c == d && e == f)) ≡ true → (a ≡ b) × (c ≡ d) × (e ≡ f)
tests a b c d e f h = (ground arith, ground arith, ground arith)

find_axis-Fits :
    (s : Shape) (i : ℕ) (dims : Shape) (n_dim before after k : ℕ)
    → drop i s ≡ dims
    → find_axis s i dims n_dim before after ≡ some k
    → Fits s k n_dim before after
unfolding find_axis
find_axis-Fits s i [] n_dim before after k e h = ground arith
find_axis-Fits s i (d ∷ dims) n_dim before after k e h =
    let (at, rest) = drop-at s i d dims e in
    let more = find_axis-Fits s (suc i) dims n_dim before after k rest in
    elim (Bool-cases
      (d == n_dim && (prod (take i s) == before && prod (drop (suc i) s) == after))) [
        | inl found ↦
            let (a, b, c) =
              tests d n_dim (prod (take i s)) before (prod (drop (suc i) s)) after found in
            let i_k : i ≡ k = ground arith in
            record {
              is_size = rw i_k at (at ∙ ap some a);
              as_before = rw i_k at b;
              as_after = rw i_k at c;
            }
        | inr other ↦ more (ground arith)
      ]

find_axis-none :
    (s : Shape) (i : ℕ) (dims : Shape) (n_dim before after k : ℕ)
    → drop i s ≡ dims
    → find_axis s i dims n_dim before after ≡ none
    → i ≤ k
    → ¬ Fits s k n_dim before after
unfolding find_axis
find_axis-none s i [] n_dim before after k e h le fits =
    let size = fits.is_size in let past = drop-past s i k e le in cc
find_axis-none s i (d ∷ dims) n_dim before after k e h le fits =
    let (at, rest) = drop-at s i d dims e in
    let more = find_axis-none s (suc i) dims n_dim before after k rest in
    elim (Bool-cases
      (d == n_dim && (prod (take i s) == before && prod (drop (suc i) s) == after))) [
        | inl found ↦ ground arith
        | inr other ↦ elim (Bool-cases (i == k)) [
          | inl here ↦ ground (arith, fits.is_size, fits.as_before, fits.as_after)
          | inr later ↦ more (ground arith) (ground arith) fits
        ]
      ]

module _ {S : Type 0} (torch : Torch) (laws : ReshapeLaws torch) (dims : List ℤ) (v : HomValue S)
    (k n_dim : ℕ) (slot : v.n_axis ≡ some (pos k))
    (size : get_elem? v.tensor_shape k ≡ some n_dim) where
  abbrev pub SlotFits : Shape → ℕ → Type 0
  SlotFits s a = Fits s a n_dim (prod (take k v.tensor_shape)) (prod (drop (suc k) v.tensor_shape))

  abbrev pub Reshaped : Shape → Result (HomValue S) → Type 0
  Reshaped s (ok r) = (r.tensor_shape ≡ s) × (a : ℕ) × (r.n_axis ≡ some (pos a)) × SlotFits s a
  Reshaped s (err e) = (e ≡ value_error) × ((a : ℕ) → ¬ SlotFits s a)

  reshape-none :
      torch.reshape v.tensor_shape dims ≡ none → reshape_output_shape torch dims v ≡ err value_error
  unfolding reshape_output_shape
  reshape-none h = rw h

  reshape-some :
      (s : Shape)
      → torch.reshape v.tensor_shape dims ≡ some s
      → reshape_output_shape torch dims v ≡ (
          or_raise
            (find_axis s 0 s n_dim
              (prod (take k v.tensor_shape))
              (prod (drop (suc k) v.tensor_shape)))
            value_error
          >>= λ a. ok (copy_shape_axis v s (pos a)))
  unfolding reshape_output_shape
  reshape-some s h =
      let lt = get_elem?-lt v.tensor_shape k size in
      rw (
        h,
        slot,
        get_item?-pos v.tensor_shape k lt ∙ size,
        slice_to-pos v.tensor_shape k lt,
        slice_from-pos v.tensor_shape k lt,
      )

  found :
      (s : Shape)
      → Reshaped s (
          or_raise
            (find_axis s 0 s n_dim
              (prod (take k v.tensor_shape))
              (prod (drop (suc k) v.tensor_shape)))
            value_error
          >>= λ a. ok (copy_shape_axis v s (pos a)))
  unfolding copy_shape_axis post_init to_pos_axis
  found s =
      elim (Option-cases (
        find_axis s 0 s n_dim (prod (take k v.tensor_shape))
          (prod (drop (suc k) v.tensor_shape)))) [
            | inl e ↦ rw e (refl, λ a. find_axis-none s 0 s _ _ _ a refl e (omega arith))
            | inr (a, e) ↦ rw e (refl, a, refl, find_axis-Fits s 0 s _ _ _ a refl e)
          ]

  -- With a slot axis `k` in the shape: if torch's `reshape` raises, HomReshape raises ValueError.
  -- If it returns a shape, that shape has as many entries as the input's, and HomReshape either returns
  -- it with a slot axis of the same size, with as many entries before it and as many after it as in the
  -- input, or raises ValueError, and then no axis of the shape is such an axis.
  pub reshape_keeps_slot :
      (torch.reshape v.tensor_shape dims ≡ none
        → reshape_output_shape torch dims v ≡ err value_error)
      × ((s : Shape)
          → torch.reshape v.tensor_shape dims ≡ some s
          → (prod s ≡ prod v.tensor_shape) × Reshaped s (reshape_output_shape torch dims v))
  reshape_keeps_slot =
      (reshape-none, λ s h. (laws.entries v.tensor_shape s dims h, rw (reshape-some s h) (found s)))
