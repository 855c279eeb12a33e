-- ===== src/Operators/Squeeze.antt =====
-- HomSqueeze undoes HomUnsqueeze.
use lattica_studio.Prelude.{
  ℕ, zero, suc, ◌-◌, ◌≤◌, ◌≡◌, ◌≢◌, refl, sym, ap, ◌∙◌, List, [], ◌++◌, ◌∷◌, Option, some, none,
  arith, length, length-append,
}
use lattica_studio.Prelude.Int.{ℤ, pos, negsuc}
use lattica_studio.Prelude.Splice.{
  insert_at, remove_at, drop_one, length-insert_at, get_elem?-insert_at_self,
}
use lattica_studio.Result.{ok}
use lattica_studio.Torch.{Shape}
use lattica_studio.HomValue.{HomValue, to_pos_axis}
use lattica_studio.Shape.{infer_insert_axis_output_shape, infer_remove_axis_output_shape}
use lattica_studio.Shape.Slot.{get_item?-pos, IsWellFormed, IsAxis}
use lattica_studio.Shape.Insert.{shifted-keeps, shifted, lowered, insert-eq}
use lattica_studio.Shape.Remove.{remove-ok, to_pos_axis-negsuc}
use lattica_studio.Operators.{squeeze_output_shape, unsqueeze_output_shape}

to_pos_axis-pos : (a : ℕ) (s : Shape) → to_pos_axis (pos a) s ≡ pos a
unfolding to_pos_axis
to_pos_axis-pos a s = refl

remove_at-insert_at : (s : List ℕ) (a x : ℕ) → a ≤ length s → remove_at (insert_at s a x) a ≡ s
remove_at-insert_at s zero x h = refl
remove_at-insert_at [] (suc a) x h = elim h [ ]
remove_at-insert_at (y ∷ s) (suc a) x h =
    rw (drop_one y (insert_at s a x) a) (ap (λ t. y ∷ t) (remove_at-insert_at s a x (omega arith)))

lowered-shifted : (n : Option ℤ) (s : Shape) (a : ℕ) → IsAxis n s → lowered (shifted n a) a ≡ n
lowered-shifted none s a w = refl
lowered-shifted (some (negsuc n)) s a w = absurd w
lowered-shifted (some (pos n)) s a w = ground arith

shifted-other : (n : Option ℤ) (a : ℕ) → shifted n a ≢ some (pos a)
shifted-other none a e = cc
shifted-other (some (negsuc n)) a e = cc
shifted-other (some (pos n)) a e = ground arith

module _ {S : Type 0} (v : HomValue S) where
  abbrev inserted : ℕ → HomValue S
  inserted a = record v { tensor_shape = insert_at v.tensor_shape a 1; n_axis = shifted v.n_axis a }

  unsqueeze-pos :
      (a : ℕ)
      → a ≤ length v.tensor_shape
      → IsWellFormed v
      → unsqueeze_output_shape (pos a) v ≡ inserted a
  unfolding unsqueeze_output_shape to_pos_axis
  unsqueeze-pos a h w = insert-eq v a 1 h w

  squeeze-inserted :
      (a : ℕ)
      → a ≤ length v.tensor_shape
      → IsWellFormed v
      → infer_remove_axis_output_shape (inserted a) (pos a) ≡ ok v
  squeeze-inserted a h w =
      remove-ok (inserted a) a (omega (arith, length-insert_at v.tensor_shape a 1))
        (shifted-other v.n_axis a) (shifted-keeps v.n_axis v.tensor_shape a 1 h w).0
      ∙ ap ok λ i. record v {
        tensor_shape = remove_at-insert_at v.tensor_shape a 1 h i;
        n_axis = lowered-shifted v.n_axis v.tensor_shape a w i;
      }

  squeeze-pos :
      (a : ℕ)
      → a ≤ length v.tensor_shape
      → IsWellFormed v
      → squeeze_output_shape (pos a) (inserted a) ≡ ok v
  unfolding squeeze_output_shape to_pos_axis
  squeeze-pos a h w =
      let e = squeeze-inserted a h w in
      let at = get_elem?-insert_at_self v.tensor_shape a 1 h in
      let l = length-insert_at v.tensor_shape a 1 in
      let shape = insert_at v.tensor_shape a 1 in
      let size = get_item?-pos shape a (omega (arith, l)) ∙ at in rw size e

  axis-squeeze :
      (k : ℕ)
      → k ≤ length v.tensor_shape
      → to_pos_axis (negsuc k) (inserted (length v.tensor_shape - k)).tensor_shape
        ≡ pos (length v.tensor_shape - k)
  axis-squeeze k h =
      let l = length-insert_at v.tensor_shape (length v.tensor_shape - k) 1 in
      to_pos_axis-negsuc k (insert_at v.tensor_shape (length v.tensor_shape - k) 1)
        (omega (arith, l))
      ∙ ap pos (omega (arith, l))

  axis-unsqueeze :
      (k : ℕ)
      → k ≤ length v.tensor_shape
      → to_pos_axis (negsuc k) (v.tensor_shape ++ 1 ∷ []) ≡ pos (length v.tensor_shape - k)
  axis-unsqueeze k h =
      let l = length-append v.tensor_shape (1 ∷ []) in
      to_pos_axis-negsuc k (v.tensor_shape ++ 1 ∷ []) (omega (arith, l)) ∙ ap pos (omega (arith, l))

  unsqueeze-negsuc :
      (k : ℕ)
      → k ≤ length v.tensor_shape
      → unsqueeze_output_shape (negsuc k) v
        ≡ unsqueeze_output_shape (pos (length v.tensor_shape - k)) v
  unfolding unsqueeze_output_shape
  unsqueeze-negsuc k h =
      ap (λ a. infer_insert_axis_output_shape v a 1)
        (axis-unsqueeze k h
          ∙ sym (to_pos_axis-pos (length v.tensor_shape - k) (v.tensor_shape ++ 1 ∷ [])))

  squeeze-negsuc :
      (k : ℕ)
      → k ≤ length v.tensor_shape
      → squeeze_output_shape (negsuc k) (inserted (length v.tensor_shape - k))
        ≡ squeeze_output_shape
            (pos (length v.tensor_shape - k))
            (inserted (length v.tensor_shape - k))
  unfolding squeeze_output_shape
  squeeze-negsuc k h =
      let a = length v.tensor_shape - k in
      rw (axis-squeeze k h, to_pos_axis-pos a (inserted a).tensor_shape)

  -- For a well-formed value, a HomSqueeze of the axis that a HomUnsqueeze has put in returns the value
  -- itself: for every axis from 0 to the rank, and for every axis counted from the end, -1 to -(rank + 1).
  pub squeeze-unsqueeze :
      IsWellFormed v
      → ((a : ℕ)
          → a ≤ length v.tensor_shape
          → squeeze_output_shape (pos a) (unsqueeze_output_shape (pos a) v) ≡ ok v)
        × ((k : ℕ)
            → k ≤ length v.tensor_shape
            → squeeze_output_shape (negsuc k) (unsqueeze_output_shape (negsuc k) v) ≡ ok v)
  squeeze-unsqueeze w = (
    λ a h. ap (squeeze_output_shape (pos a)) (unsqueeze-pos a h w) ∙ squeeze-pos a h w,
    λ k h.
        let le : length v.tensor_shape - k ≤ length v.tensor_shape = omega arith in
        ap (squeeze_output_shape (negsuc k))
          (unsqueeze-negsuc k h ∙ unsqueeze-pos (length v.tensor_shape - k) le w)
        ∙ squeeze-negsuc k h
        ∙ squeeze-pos (length v.tensor_shape - k) le w,
  )
