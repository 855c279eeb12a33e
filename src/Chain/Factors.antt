-- ===== src/Chain/Factors.antt =====
-- The primes of the rows of a chain.
use mathlib.Core.List.{append_assoc}
use lattica_studio.Prelude.{
  ℕ, zero, suc, ◌+◌, ◌<◌, ◌≤◌, ◌≡◌, refl, sym, ap, ap₂, ◌∙◌, List, [], ◌∷◌, ◌++◌, some, true, false,
  length, length-append, get_elem?, arith, Option-cases, Bool-cases, inl, inr, ◌==◌, ==_iff,
}
use lattica_studio.Prelude.Count.{IsIn, IsIn-append_left, IsIn-append_right}
use lattica_studio.Result.{ok, Result-cases, ◌>>=◌, >>=-eq-ok}
use lattica_studio.Primes.{QList, get_primes_from_precisions_list}
use lattica_studio.Primes.Pool.{Pools}
use lattica_studio.Primes.Assigned.{lengths, assigned_primes}
use lattica_studio.Params.{HomParams}
use lattica_studio.Chain.{
  SectionName, ModulusChain, range_from, gather, is_in, without, drawn_at, drawn_rows, base_rows_of,
  draw_order, factors_of, make_chain,
}
use lattica_studio.Chain.Sections.{make_chain-IsMade}

is_in-IsIn : (row : ℕ) (rows : List ℕ) → is_in row rows ≡ true → IsIn row rows
unfolding is_in
is_in-IsIn row [] h = cc
is_in-IsIn row (r ∷ rows) h = elim (Bool-cases (r == row)) [
  | inl e ↦ inl (ground arith)
  | inr e ↦ inr (is_in-IsIn row rows (rw e at h))
]

without-IsIn :
    (base : List ℕ) (row : ℕ) (rows : List ℕ)
    → is_in row base ≡ false
    → IsIn row rows
    → IsIn row (without base rows)
unfolding without
without-IsIn base row [] h i = i
without-IsIn base row (r ∷ rows) h i = elim i [
  | inl p ↦ let out : is_in r base ≡ false = (rw p at h) in rw out (inl p)
  | inr j ↦ elim (Bool-cases (is_in r base)) [
    | inl e ↦ rw e (without-IsIn base row rows h j)
    | inr e ↦ rw e (inr (without-IsIn base row rows h j))
  ]
]

-- Every row is drawn.
order_covers :
    (base : List ℕ) (row : ℕ) (rows : List ℕ) → IsIn row rows → IsIn row (base ++ without base rows)
order_covers base row rows i = elim (Bool-cases (is_in row base)) [
  | inl e ↦ IsIn-append_left row base (without base rows) (is_in-IsIn row base e)
  | inr e ↦ IsIn-append_right row base (without base rows) (without-IsIn base row rows e i)
]

get_elem?-middle {ℓ} :
    {A : Type ℓ} (xs : List A) (x : A) (ys : List A) → get_elem? (xs ++ x ∷ ys) (length xs) ≡ some x
get_elem?-middle [] x ys = refl
get_elem?-middle (y ∷ xs) x ys = get_elem?-middle xs x ys

pub gather-cons :
    (full : QList) (row : ℕ) (rows : List ℕ) {qs : QList}
    → gather full (row ∷ rows) ≡ ok qs
    → (q : List ℕ) × (rest : QList) × (get_elem? full row ≡ some q)
      × (gather full rows ≡ ok rest)
      × (qs ≡ q ∷ rest)
unfolding gather
gather-cons full row rows h = elim (Option-cases (get_elem? full row)) [
  | inl e ↦ ground arith
  | inr (q, e) ↦ elim (Result-cases (gather full rows)) [
    | inr (x, f) ↦ ground arith
    | inl (rest, f) ↦ (q, rest, e, f, ground arith)
  ]
]

-- The row's primes, as many as its entries.
abbrev IsDrawn : QList → ℕ → List ℕ → Type 0
IsDrawn full row fs = (q : List ℕ) × (get_elem? full row ≡ some q) × (length fs ≡ length q)

drawn_at-lem :
    (full : QList) (row : ℕ) (order : List ℕ) (qs primes : QList)
    → gather full order ≡ ok qs
    → lengths primes ≡ lengths qs
    → IsIn row order
    → (fs : List ℕ) × (drawn_at row order primes ≡ some fs) × IsDrawn full row fs
unfolding drawn_at
drawn_at-lem full row [] qs primes h l i = absurd i
drawn_at-lem full row (r ∷ order) qs [] h l i =
    let (q, rest, e, f, same) = gather-cons full r order h in
    let bad : ◌≡◌ {A = List ℕ} [] (length q ∷ lengths rest) = (rw same at l) in cc
drawn_at-lem full row (r ∷ order) qs (fs ∷ primes) h l i =
    let (q, rest, e, f, same) = gather-cons full r order h in
    let both : length fs ∷ lengths primes ≡ length q ∷ lengths rest = (rw same at l) in
    elim (Bool-cases (r == row)) [
      | inl here ↦
          let at : r ≡ row = (==_iff r row).0 here in (fs, rw here, (q, rw at at e, ground arith))
      | inr other ↦
          let j : IsIn row order = elim i [ inl p ↦ absurd (ground arith) | inr j ↦ j ] in
          let (gs, found, drawn) = drawn_at-lem full row order rest primes f (ground arith) j in
          (gs, rw other found, drawn)
    ]

gather-nil : (full : QList) {ks : QList} → gather full [] ≡ ok ks → ks ≡ []
unfolding gather
gather-nil full g = cc

drawn_rows-lem :
    (full : QList) (order : List ℕ) (qs primes : QList) (rows : List ℕ) (ks : QList)
    → gather full order ≡ ok qs
    → lengths primes ≡ lengths qs
    → ((row : ℕ) → IsIn row rows → IsIn row order)
    → gather full rows ≡ ok ks
    → (fss : QList) × (drawn_rows order primes rows ≡ ok fss) × (lengths fss ≡ lengths ks)
unfolding drawn_rows
drawn_rows-lem full order qs primes [] ks h l all g = ([], refl, rw (gather-nil full g))
drawn_rows-lem full order qs primes (row ∷ rows) ks h l all g =
    let (k, rest, e, f, same) = gather-cons full row rows g in
    let (fs, found, (q, at, size)) =
      drawn_at-lem full row order qs primes h l (all row (inl refl)) in
    let (fss, made, more) =
      drawn_rows-lem full order qs primes rows rest h l (λ r i. all r (inr i)) f in
    let row_same : q ≡ k = ground arith in
    (
      fs ∷ fss,
      rw (found, made),
      rw same (ap₂ (λ a b. a ∷ b) (size ∙ ap (length {A = ℕ}) row_same) more),
    )

-- The rows of the whole list, in order.
gather-range :
    (before full : QList)
    → gather (before ++ full) (range_from (length before) (length full)) ≡ ok full
unfolding gather
gather-range before [] = refl
gather-range before (q ∷ full) =
    let e : before ++ q ∷ full ≡ (before ++ q ∷ []) ++ full =
      sym (append_assoc before (q ∷ []) full) in
    let l : suc (length before) ≡ length (before ++ q ∷ []) =
      omega (arith, length-append before (q ∷ [])) in
    let ih : gather (before ++ q ∷ full) (range_from (suc (length before)) (length full))
        ≡ ok full =
      ap₂ (gather {A = List ℕ}) e (ap (λ k. range_from k (length full)) l)
      ∙ gather-range (before ++ q ∷ []) full in
    rw (get_elem?-middle before q full, ih)

range_rows : (start n row : ℕ) → start ≤ row → row < start + n → IsIn row (range_from start n)
range_rows start zero row lo hi = absurd (omega arith)
range_rows start (suc n) row lo hi = elim (Bool-cases (start == row)) [
  | inl e ↦ inl (ground arith)
  | inr e ↦ inr (range_rows (suc start) n row (ground arith) (omega arith))
]

range_bound : (start n row : ℕ) → IsIn row (range_from start n) → row < start + n
range_bound start zero row i = absurd i
range_bound start (suc n) row i = elim i [
  | inl p ↦ omega arith
  | inr j ↦ omega (arith, range_bound (suc start) n row j)
]

module _ (pools : Pools) (section_rows : List (SectionName × List ℕ)) (full : QList) where
  abbrev pub order : List ℕ
  order = draw_order section_rows (length full)

  order_all : (row : ℕ) → IsIn row (range_from 0 (length full)) → IsIn row order
  unfolding draw_order
  order_all row i = order_covers (base_rows_of section_rows) row (range_from 0 (length full)) i

  -- No row is missing from the dictionary of the drawn primes.
  factors_of_drawn :
      (qs primes : QList)
      → gather full order ≡ ok qs
      → get_primes_from_precisions_list pools qs ≡ ok primes
      → (fss : QList) × (factors_of pools section_rows full ≡ ok fss)
        × (drawn_rows order primes (range_from 0 (length full)) ≡ ok fss)
        × (lengths fss ≡ lengths full)
  unfolding factors_of
  factors_of_drawn qs primes g h =
      let l = (assigned_primes pools qs primes h).0 in
      let (fss, made, sizes) =
        drawn_rows-lem full order qs primes (range_from 0 (length full)) full g l order_all
          (gather-range [] full) in
      (fss, rw (g, h) made, made, sizes)

  pub factors_of-ok :
      (fss : QList)
      → factors_of pools section_rows full ≡ ok fss
      → (qs primes : QList) × (gather full order ≡ ok qs)
        × (get_primes_from_precisions_list pools qs ≡ ok primes)
        × (drawn_rows order primes (range_from 0 (length full)) ≡ ok fss)
        × (lengths fss ≡ lengths full)
  unfolding factors_of
  factors_of-ok fss h =
      let (qs, g, more) =
        >>=-eq-ok (gather full order)
          (λ qs. do
            primes ← get_primes_from_precisions_list pools qs
            drawn_rows order primes (range_from 0 (length full)))
          h in
      let (primes, f, d) =
        >>=-eq-ok (get_primes_from_precisions_list pools qs)
          (λ primes. drawn_rows order primes (range_from 0 (length full))) more in
      let (gss, made, d', sizes) = factors_of_drawn qs primes g f in
      let same : fss ≡ gss = cc in (qs, primes, g, f, d, rw same sizes)

-- The chain of a pipeline has, for each row, as many primes as the row has precisions.
pub factors_match_rows :
    (pools : Pools) (p : HomParams) (c : ModulusChain)
    → make_chain pools p ≡ ok c
    → lengths c.factors_per_row ≡ lengths c.full_q_list
factors_match_rows pools p c h =
    let made = make_chain-IsMade pools p c h in
    let (qs, primes, g, f, d, sizes) =
      factors_of-ok pools c.section_rows c.full_q_list c.factors_per_row made.factors in
    sizes
