-- ===== src/Shape/Active.antt =====
-- `expand_ellipsis` gives one entry for each axis, and `resolve_single_axis_index` finds the one entry
-- that is not a full slice.
use native.Mathlib.Nat.{zero-add}
use lattica_studio.Prelude.{
  ℕ, zero, suc, ◌+◌, ◌-◌, ◌≤◌, ◌<◌, ◌≡◌, ◌≢◌, refl, ap, List, [], ◌++◌, ◌∷◌, some, arith, length,
  take, drop, replicate, get_elem?, true, false, Bool-cases, inl, inr, ◌==◌, ◌⊎◌, length-append,
  length-take, length-drop, length-replicate,
}
use lattica_studio.Result.{ok, err, value_error, >>=-eq-ok}
use lattica_studio.Shape.Indexer.{
  Entry, Key, tuple, is_full_slice, ellipsis_count, ellipsis_index, expand_entries, expand_ellipsis,
  active_from, resolve_single_axis_index, full_slice, the_active,
}

ellipsis_index-lt : (key : List Entry) → ellipsis_count key ≢ 0 → ellipsis_index key < length key
unfolding ellipsis_count ellipsis_index
ellipsis_index-lt [] h = absurd (h refl)
ellipsis_index-lt (e ∷ key) h = ground (arith, ellipsis_index-lt key)

-- The two `raise` conditions on a tuple.
abbrev pub IsTooLong : List Entry → ℕ → Type 0
IsTooLong key ndim = ndim + ellipsis_count key < length key

expand_entries-fits :
    (key : List Entry) (ndim : ℕ)
    → ellipsis_count key ≤ 1
    → ¬ IsTooLong key ndim
    → (es : List Entry) × (expand_entries key ndim ≡ ok es) × (length es ≡ ndim)
unfolding expand_entries
expand_entries-fits key ndim one fits = elim (Bool-cases (ellipsis_count key == 0)) [
  | inl e ↦ (
    key ++ replicate (ndim - length key) full_slice,
    ground arith,
    ground (
      arith,
      length-append key (replicate (ndim - length key) full_slice),
      length-replicate (ndim - length key) full_slice,
    ),
  )
  | inr e ↦
      let idx = ellipsis_index key in
      let fill = replicate (ndim - (length key - 1)) full_slice in
      (
        take idx key ++ (fill ++ drop (suc idx) key),
        ground arith,
        ground (
          arith,
          ellipsis_index-lt key,
          length-append (take idx key) (fill ++ drop (suc idx) key),
          length-append fill (drop (suc idx) key),
          length-replicate (ndim - (length key - 1)) full_slice,
          length-take idx key,
          length-drop (suc idx) key,
        ),
      )
]

expand_entries-too_long :
    (key : List Entry) (ndim : ℕ)
    → ellipsis_count key ≤ 1
    → IsTooLong key ndim
    → expand_entries key ndim ≡ err value_error
unfolding expand_entries
expand_entries-too_long key ndim one long = ground arith

-- A tuple with at most one Ellipsis, and no more other entries than the tensor has axes, expands to one
-- entry for each axis; any other tuple raises ValueError.
pub expand_ellipsis_total :
    (key : List Entry) (ndim : ℕ)
    → (ellipsis_count key ≤ 1
        → ¬ IsTooLong key ndim
        → (es : List Entry) × (expand_ellipsis (tuple key) ndim ≡ ok es) × (length es ≡ ndim))
      × ((1 < ellipsis_count key) ⊎ IsTooLong key ndim
          → expand_ellipsis (tuple key) ndim ≡ err value_error)
unfolding expand_ellipsis
expand_ellipsis_total key ndim = (
  λ one fits.
      let (es, e, l) = expand_entries-fits key ndim one fits in (es, rw e (ground arith), l),
  λ c. elim c [
    | inl many ↦ ground arith
    | inr long ↦ ground (arith, expand_entries-too_long key ndim)
  ],
)

the_active-ok :
    (actives : List (ℕ × Entry)) {dim : ℕ} {entry : Entry}
    → the_active actives ≡ ok (dim, entry)
    → actives ≡ (dim, entry) ∷ []
the_active-ok [] h = cc
the_active-ok ((d, e) ∷ []) h = ground arith
the_active-ok (_ ∷ _ ∷ _) h = cc

-- What stands at the places of `es` when `j` is the only one that is not a full slice.
abbrev pub IsOnlyActive : List Entry → ℕ → Entry → Type 0
IsOnlyActive es j e =
    (get_elem? es j ≡ some e)
    × (is_full_slice e ≡ false)
    × ((m : ℕ) (f : Entry) → m ≢ j → get_elem? es m ≡ some f → is_full_slice f ≡ true)

none_active :
    (i : ℕ) (es : List Entry)
    → active_from i es ≡ []
    → (m : ℕ) (f : Entry) → get_elem? es m ≡ some f
    → is_full_slice f ≡ true
unfolding active_from
none_active i [] h m f at = cc
none_active i (x ∷ es) h zero f at = ground arith
none_active i (x ∷ es) h (suc m) f at = none_active (suc i) es (ground arith) m f at

after_full :
    (x : Entry) (es : List Entry) (j : ℕ) (e : Entry)
    → is_full_slice x ≡ true
    → IsOnlyActive es j e
    → (m : ℕ) (f : Entry) → m ≢ suc j
    → get_elem? (x ∷ es) m ≡ some f
    → is_full_slice f ≡ true
after_full x es j e full h zero f ne at = ground arith
after_full x es j e full h (suc m) f ne at = h.2 m f (λ p. ne (ap suc p)) at

before_full :
    (i : ℕ) (x : Entry) (es : List Entry)
    → active_from i es ≡ []
    → (m : ℕ) (f : Entry) → m ≢ 0
    → get_elem? (x ∷ es) m ≡ some f
    → is_full_slice f ≡ true
before_full i x es h zero f ne at = absurd (ne refl)
before_full i x es h (suc m) f ne at = none_active i es h m f at

one_active :
    (i : ℕ) (es : List Entry) (d : ℕ) (e : Entry)
    → active_from i es ≡ (d, e) ∷ []
    → (j : ℕ) × (d ≡ i + j) × IsOnlyActive es j e
unfolding active_from
one_active i [] d e h = cc
one_active i (x ∷ es) d e h = elim (Bool-cases (is_full_slice x)) [
  | inl full ↦
      let (j, p, only) = one_active (suc i) es d e (rw full at h) in
      (suc j, omega arith, (only.0, only.1, after_full x es j e full only))
  | inr active ↦
      let head : (i, x) ∷ active_from (suc i) es ≡ (d, e) ∷ [] = rw active at h in
      (0, ground arith, (ground arith, ground arith, before_full (suc i) x es (ground arith)))
]

-- A result `(dim, entry)` of `resolve_single_axis_index` names an axis of the expanded key: the entry
-- at `dim` is `entry`, which is no full slice, and every other entry is one.
pub resolve_single_axis_lem :
    (key : Key) (ndim dim : ℕ) (entry : Entry)
    → resolve_single_axis_index key ndim ≡ ok (dim, entry)
    → (es : List Entry) × (expand_ellipsis key ndim ≡ ok es) × IsOnlyActive es dim entry
unfolding resolve_single_axis_index
resolve_single_axis_lem key ndim dim entry h =
    let (es, e, rest) =
      >>=-eq-ok (expand_ellipsis key ndim) (λ es. the_active (active_from 0 es)) h in
    let (j, p, only) = one_active 0 es dim entry (the_active-ok (active_from 0 es) rest) in
    (es, e, rw (p, zero-add) only)
