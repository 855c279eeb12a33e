-- ===== src/Primes/Assigned.antt =====
-- The primes of a whole modulus chain.
use lattica_studio.Prelude.{
  ℕ, zero, suc, ◌+◌, ◌-◌, ◌≤◌, ◌≡◌, refl, sym, ap, ap₂, ◌∙◌, List, [], ◌∷◌, ◌++◌, map, length, take,
  drop, length-append, length-take, length-drop, take-append-drop, arith, inl, inr, ltb, not,
}
use lattica_studio.Prelude.Count.{count}
use lattica_studio.Result.{ok, value_error, >>=-eq-ok, Result-cases, ◌>>=◌, raise_if}
use lattica_studio.Primes.{
  QList, relative_precisions, precisions_needed, draw, unflatten_from, unflatten_rows_cols,
  get_primes_from_precisions_list,
}
use lattica_studio.Primes.Pool.{Pools, count_all}
use lattica_studio.Primes.Draws.{draw-count, length-draw, FromPools, draw-FromPools}

abbrev pub flatten : List (List ℕ) → List ℕ
flatten [] = []
flatten (row ∷ rows) = row ++ flatten rows

abbrev pub lengths : List (List ℕ) → List ℕ
lengths = map (length {A = ℕ})

drop-nil : (m : ℕ) → ◌≡◌ {A = List ℕ} (drop m []) []
drop-nil zero = refl
drop-nil (suc m) = refl

nil_of_length : (xs : List ℕ) → length xs ≡ 0 → xs ≡ []
nil_of_length [] h = refl
nil_of_length (x ∷ xs) h = absurd (omega arith)

drop-add : (n m : ℕ) (xs : List ℕ) → drop (n + m) xs ≡ drop m (drop n xs)
drop-add zero m xs = let e : zero + m ≡ m = omega arith in rw e
drop-add (suc n) m [] = let e : suc n + m ≡ suc (n + m) = omega arith in rw e (sym (drop-nil m))
drop-add (suc n) m (x ∷ xs) =
    let e : suc n + m ≡ suc (n + m) = omega arith in rw e (drop-add n m xs)

abbrev sum_of : List ℕ → ℕ
sum_of [] = 0
sum_of (n ∷ ns) = n + sum_of ns

unflatten-flatten :
    (idx : ℕ) (a ns : List ℕ)
    → length (drop idx a) ≡ sum_of ns
    → (flatten (unflatten_from idx a ns) ≡ drop idx a) × (lengths (unflatten_from idx a ns) ≡ ns)
unfolding unflatten_from
unflatten-flatten idx a [] h = (sym (nil_of_length (drop idx a) h), refl)
unflatten-flatten idx a (n ∷ ns) h =
    let rest = drop idx a in
    let fits : length (drop (idx + n) a) ≡ sum_of ns =
      rw drop-add (omega (arith, length-drop n rest)) in
    let (whole, same) = unflatten-flatten (idx + n) a ns fits in
    (
      ap (λ t. take n rest ++ t) (whole ∙ drop-add idx n a) ∙ take-append-drop n rest,
      ap₂ (λ k ks. k ∷ ks) (omega (arith, length-take n rest)) same,
    )

length-relative_precisions :
    (row ps : List ℕ) → relative_precisions row ≡ ok ps → length ps ≡ length row
unfolding relative_precisions
length-relative_precisions [] ps h = cc
length-relative_precisions (a ∷ []) ps h = ground arith
length-relative_precisions (a ∷ b ∷ row) ps h =
    let (_, _, rest_ok) =
      >>=-eq-ok (raise_if (not (ltb b a)) value_error)
        (λ _. do rest ← relative_precisions (b ∷ row); ok ((a - b) ∷ rest)) h in
    let (rest, e, f) =
      >>=-eq-ok (relative_precisions (b ∷ row)) (λ rest. ok ((a - b) ∷ rest)) rest_ok in
    let same : ps ≡ (a - b) ∷ rest = cc in
    rw same (ap suc (length-relative_precisions (b ∷ row) rest e))

length-precisions_needed :
    (qs : QList) (ps : List ℕ) → precisions_needed qs ≡ ok ps → length ps ≡ sum_of (lengths qs)
unfolding precisions_needed
length-precisions_needed [] ps h = let e : ps ≡ [] = cc in rw e
length-precisions_needed (row ∷ qs) ps h =
    let (here, e, more) =
      >>=-eq-ok (relative_precisions row) (λ ps. do rest ← precisions_needed qs; ok (ps ++ rest))
        h in
    let (rest, f, g) = >>=-eq-ok (precisions_needed qs) (λ rest. ok (here ++ rest)) more in
    let same : ps ≡ here ++ rest = cc in
    rw same (
      omega (
        arith,
        length-append here rest,
        length-relative_precisions row here e,
        length-precisions_needed qs rest f,
      ))

-- A successful call, step by step.
get_primes-ok :
    (pools : Pools) (qs : QList) {fs : List (List ℕ)}
    → get_primes_from_precisions_list pools qs ≡ ok fs
    → (ps xs : List ℕ) × (precisions_needed qs ≡ ok ps)
      × (draw ps pools ≡ ok xs)
      × (flatten fs ≡ xs)
      × (lengths fs ≡ lengths qs)
unfolding get_primes_from_precisions_list
get_primes-ok pools qs {fs} h = elim (Result-cases (precisions_needed qs)) [
  | inr (x, e) ↦ ground arith
  | inl (ps, e) ↦ elim (Result-cases (draw ps pools)) [
    | inr (x, f) ↦ ground arith
    | inl (xs, f) ↦
        let same : fs ≡ unflatten_rows_cols xs (lengths qs) = ground arith in
        let fits : length (drop 0 xs) ≡ sum_of (lengths qs) =
          length-draw ps pools xs f ∙ length-precisions_needed qs ps e in
        let (whole, rows) = unflatten-flatten 0 xs (lengths qs) fits in
        (ps, xs, e, f, rw same whole, rw same rows)
  ]
]

-- When primes are assigned to a chain, there is one for each entry of each row, each prime comes from
-- the pool of its bit-length, and no number is assigned more often than it stands in the pools: where
-- the pools list no prime twice, all assigned primes differ.
pub assigned_primes :
    (pools : Pools) (qs fs : List (List ℕ))
    → get_primes_from_precisions_list pools qs ≡ ok fs
    → (lengths fs ≡ lengths qs)
      × ((ps : List ℕ) × (precisions_needed qs ≡ ok ps) × FromPools pools ps (flatten fs))
      × ((a : ℕ) → count a (flatten fs) ≤ count_all a pools)
assigned_primes pools qs fs h =
    let (ps, xs, e, f, whole, rows) = get_primes-ok pools qs h in
    (
      rows,
      (ps, e, rw whole (draw-FromPools ps pools xs f)),
      λ a. rw whole (draw-count ps pools xs f a),
    )
