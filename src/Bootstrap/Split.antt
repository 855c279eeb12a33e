-- ===== src/Bootstrap/Split.antt =====
-- `for_slot_counts` builds a chain that the split of each of its slot counts fits.
use native.Mathlib.Nat.{mod-add-div, mod-lt}
use lattica_studio.Prelude.{
  ℕ, zero, suc, ◌+◌, ◌-◌, ◌*◌, ◌/◌, ◌%◌, ◌≤◌, ◌≡◌, refl, ap, ap₂, ◌∙◌, List, [], ◌∷◌, ◌++◌, none,
  some, Bool, length, replicate, length-replicate, length-append, arith, ltb, Option-cases, inl,
  inr, ◌⊎◌, Bool-cases,
}
use lattica_studio.Prelude.Count.{IsIn}
use lattica_studio.Result.{ok, Result-cases}
use lattica_studio.Bootstrap.{
  BootstrappingParams, SlotEntry, n_slots_entry, init, entries_of, max_of, levels_of, bits_of,
  for_slot_counts, slim_split, dft_split,
}
use lattica_studio.Bootstrap.BitLength.{bit_length}
use lattica_studio.Bootstrap.Table.{sum, n_slots_entry-IsEntry}

max_of-bound : (xs : List ℕ) (x m : ℕ) → max_of xs ≡ some m → IsIn x xs → x ≤ m
unfolding max_of
max_of-bound [] x m h i = absurd i
max_of-bound (y ∷ xs) x m h i = elim (Option-cases (max_of xs)) [
  | inl e ↦ elim i [ inl p ↦ ground arith | inr j ↦ absurd (empty_of_none xs e j) ]
  | inr (k, e) ↦ elim i [ inl p ↦ ground arith | inr j ↦ ground (arith, max_of-bound xs x k e j) ]
]
  where
    empty_of_none : (ys : List ℕ) → max_of ys ≡ none → IsIn x ys → ⊥
    empty_of_none [] e j = j
    empty_of_none (z ∷ ys) e j = ground arith

-- The greatest entry is one of them.
max_of-IsIn : (xs : List ℕ) (m : ℕ) → max_of xs ≡ some m → IsIn m xs
unfolding max_of
max_of-IsIn [] m h = cc
max_of-IsIn (y ∷ xs) m h = elim (Option-cases (max_of xs)) [
  | inl e ↦ inl (ground arith)
  | inr (k, e) ↦ elim (Bool-cases (ltb y k)) [
    | inl lt ↦ inr (let same : k ≡ m = ground arith in rw same at (max_of-IsIn xs k e))
    | inr ge ↦ inl (ground arith)
  ]
]

-- Every entry of the slot counts is valid for some count.
entries_of-cons :
    (n : ℕ) (ns : List ℕ) {es : List SlotEntry}
    → entries_of (n ∷ ns) ≡ ok es
    → (e : SlotEntry) × (rest : List SlotEntry) × (n_slots_entry n ≡ ok e)
      × (entries_of ns ≡ ok rest)
      × (es ≡ e ∷ rest)
unfolding entries_of
entries_of-cons n ns {es} h = elim (Result-cases (n_slots_entry n)) [
  | inr (x, f) ↦ ground arith
  | inl (e, f) ↦ elim (Result-cases (entries_of ns)) [
    | inr (x, g) ↦ ground arith
    | inl (rest, g) ↦ (e, rest, f, g, ground arith)
  ]
]

entry-IsIn :
    (ns : List ℕ) (es : List SlotEntry) (n : ℕ)
    → entries_of ns ≡ ok es
    → IsIn n ns
    → (e : SlotEntry) × (n_slots_entry n ≡ ok e)
      × IsIn (length e.0) (levels_of es)
      × IsIn e.1 (bits_of es)
entry-IsIn [] es n h i = absurd i
entry-IsIn (m ∷ ns) es n h i =
    let (e, rest, f, g, same) = entries_of-cons m ns h in
    rw same (elim i [
      | inl p ↦ (e, rw p f, inl refl, inl refl)
      | inr j ↦ let (d, k, l, b) = entry-IsIn ns rest n g j in (d, k, inr l, inr b)
    ])

levels_in :
    (ns : List ℕ) (es : List SlotEntry) (l : ℕ)
    → entries_of ns ≡ ok es
    → IsIn l (levels_of es)
    → (1 ≤ l) × (l ≤ 4)
unfolding entries_of
levels_in [] es l h i = let e : es ≡ [] = cc in absurd (rw e at i)
levels_in (m ∷ ns) es l h i =
    let (e, rest, f, g, same) = entries_of-cons m ns h in
    let i' : (l ≡ length e.0) ⊎ IsIn l (levels_of rest) = (rw same at i) in
    elim i' [
      | inl p ↦ let valid = n_slots_entry-IsEntry m e f in ground (arith, valid.1, valid.2)
      | inr j ↦ levels_in ns rest l g j
    ]

init-fields :
    (real slim : Bool) (d c : ℕ) (b : BootstrappingParams)
    → init real slim d c ≡ ok b
    → (b.slim_boot ≡ slim) × (b.dft_levels ≡ d) × (b.cts_scale ≡ c)
unfolding init
init-fields real slim d c b h = ground arith

for_slot_counts-ok :
    (real slim : Bool) (ns : List ℕ) (b : BootstrappingParams)
    → for_slot_counts real slim ns ≡ ok b
    → (es : List SlotEntry) × (entries_of ns ≡ ok es)
      × (max_of (levels_of es) ≡ some b.dft_levels)
      × (max_of (bits_of es) ≡ some b.cts_scale)
      × (b.slim_boot ≡ slim)
unfolding for_slot_counts
for_slot_counts-ok real slim ns b h = elim (Result-cases (entries_of ns)) [
  | inr (x, e) ↦ ground arith
  | inl (es, e) ↦ elim (Option-cases (max_of (levels_of es))) [
    | inl f ↦ ground arith
    | inr (d, f) ↦ elim (Option-cases (max_of (bits_of es))) [
      | inl g ↦ ground arith
      | inr (c, g) ↦
          let made : init real slim d c ≡ ok b = ground arith in
          let fields = init-fields real slim d c b made in
          (es, e, rw fields.1 f, rw fields.2 g, fields.0)
    ]
  ]
]

sum-append : (xs ys : List ℕ) → sum (xs ++ ys) ≡ sum xs + sum ys
sum-append [] ys = omega arith
sum-append (x ∷ xs) ys = omega (arith, sum-append xs ys)

sum-replicate : (n x : ℕ) → sum (replicate n x) ≡ n * x
sum-replicate zero x = omega arith
sum-replicate (suc n) x = ground (arith, sum-replicate n x)

parts_sum : (m r q : ℕ) → r * (q + 1) + m * q ≡ r + (r + m) * q
parts_sum m r q = omega arith

-- SLIM splits the stages into `n_levels` nearly equal parts.
pub slim_split_lem :
    (n_levels log_n : ℕ)
    → 1 ≤ n_levels
    → n_levels ≤ log_n
    → (split : List ℕ) × (slim_split n_levels log_n ≡ ok split)
      × (sum split ≡ log_n)
      × (length split ≡ n_levels)
unfolding slim_split
slim_split_lem n_levels log_n h l =
    let q = log_n / n_levels in
    let r = log_n % n_levels in
    (
      replicate r (q + 1) ++ replicate (n_levels - r) q,
      ground arith,
      sum-append (replicate r (q + 1)) (replicate (n_levels - r) q)
          ∙ ap₂ (λ a b. a + b) (sum-replicate r (q + 1)) (sum-replicate (n_levels - r) q)
          ∙ parts_sum (n_levels - r) r q
          ∙ ap (λ n. r + n * q) (omega (arith, mod-lt log_n {m = n_levels} h))
          ∙ mod-add-div log_n n_levels,
      omega (
        arith,
        length-append (replicate r (q + 1)) (replicate (n_levels - r) q),
        length-replicate r (q + 1),
        length-replicate (n_levels - r) q,
      ),
    )

-- The chain of `for_slot_counts` serves each of its slot counts, SLIM or not: `dft_split` returns parts
-- that sum to the number of FFT stages, `n.bit_length() - 1`, and take at most the chain's DFT levels.
pub for_slot_counts_fits :
    (real slim : Bool) (ns : List ℕ) (b : BootstrappingParams) (n : ℕ)
    → for_slot_counts real slim ns ≡ ok b
    → IsIn n ns
    → (split : List ℕ) × (dft_split b n ≡ ok split)
      × (sum split ≡ bit_length n - 1)
      × (length split ≤ b.dft_levels)
unfolding dft_split
for_slot_counts_fits real slim ns b n h i =
    let (es, e, top, wide, same) = for_slot_counts-ok real slim ns b h in
    let (entry, f, in_levels, in_bits) = entry-IsIn ns es n e i in
    let valid = n_slots_entry-IsEntry n entry f in
    let fits : length entry.0 ≤ b.dft_levels =
      max_of-bound (levels_of es) (length entry.0) b.dft_levels top in_levels in
    let covers : entry.1 ≤ b.cts_scale =
      max_of-bound (bits_of es) entry.1 b.cts_scale wide in_bits in
    elim (Bool-cases b.slim_boot) [
      | inl s ↦
          let bounds =
            levels_in ns es b.dft_levels e (max_of-IsIn (levels_of es) b.dft_levels top) in
          let (split, g, whole, l) =
            slim_split_lem b.dft_levels (bit_length n - 1) bounds.0
              (omega (arith, bounds.1, valid.3)) in
          (split, rw s g, whole, omega arith)
      | inr s ↦ (entry.0, rw (s, f) (ground arith), valid.0, fits)
    ]
