-- ===== src/Chain/Base.antt =====
-- The prime of the bootstrap base: it is drawn first.
use lattica_studio.Prelude.{
  ℕ, zero, suc, ◌+◌, ◌<◌, ◌≡◌, refl, ap, ◌∙◌, List, [], ◌∷◌, ◌++◌, some, map, length, get_elem?,
  get_elem?-lt, arith, Option-cases, inl, inr,
}
use lattica_studio.Result.{ok, Result-cases}
use lattica_studio.Primes.{
  QList, relative_precisions, precisions_needed, has_unknown, has_shortage, draw, unflatten_from,
  get_primes_from_precisions_list,
}
use lattica_studio.Primes.Pool.{Pools, lookup, pop, update}
use lattica_studio.Bootstrap.{BootstrappingParams}
use lattica_studio.Params.{HomParams}
use lattica_studio.Chain.{
  ModulusChain, boot_base, mod_chain_sections, boot_sections, section_rows_from, full_q_list_of,
  range_from, rows_of, gather, without, drawn_at, drawn_rows, base_rows_of, draw_order, make_chain,
}
use lattica_studio.Chain.Sections.{IsMade, make_chain-IsMade}
use lattica_studio.Chain.Factors.{factors_of-ok, gather-cons, order}

get_elem?-append_skip {ℓ} :
    {A : Type ℓ} (xs ys : List A) (k : ℕ) → get_elem? (xs ++ ys) (length xs + k) ≡ get_elem? ys k
get_elem?-append_skip [] ys k = let e : 0 + k ≡ k = omega arith in rw e
get_elem?-append_skip (x ∷ xs) ys k =
    let e : suc (length xs) + k ≡ suc (length xs + k) = omega arith in
    rw e (get_elem?-append_skip xs ys k)

get_elem?-range : (start n k : ℕ) → k < n → get_elem? (range_from start n) k ≡ some (start + k)
get_elem?-range start zero k h = absurd (omega arith)
get_elem?-range start (suc n) zero h = ap some (omega arith)
get_elem?-range start (suc n) (suc k) h =
    get_elem?-range (suc start) n k (omega arith) ∙ ap some (omega arith)

get_elem?-drawn_rows :
    (order : List ℕ) (primes : QList) (rows : List ℕ) (fss : QList) (i row : ℕ)
    → drawn_rows order primes rows ≡ ok fss
    → get_elem? rows i ≡ some row
    → get_elem? fss i ≡ drawn_at row order primes
unfolding drawn_rows
get_elem?-drawn_rows order primes [] fss i row h at = cc
get_elem?-drawn_rows order primes (r ∷ rows) fss i row h at =
    elim (Option-cases (drawn_at r order primes)) [
      | inl e ↦ ground arith
      | inr (fs, e) ↦ elim (Result-cases (drawn_rows order primes rows)) [
        | inr (x, f) ↦ ground arith
        | inl (rest, f) ↦
            let same : fss ≡ fs ∷ rest = ground arith in
            rw same (at_index rest i (get_elem?-drawn_rows order primes rows rest) f e at)
      ]
    ]
  where
    at_index :
        {fs : List ℕ} (rest : QList) (j : ℕ)
        → ((k row' : ℕ)
            → drawn_rows order primes rows ≡ ok rest
            → get_elem? rows k ≡ some row'
            → get_elem? rest k ≡ drawn_at row' order primes)
        → drawn_rows order primes rows ≡ ok rest
        → drawn_at r order primes ≡ some fs
        → get_elem? (r ∷ rows) j ≡ some row
        → get_elem? (fs ∷ rest) j ≡ drawn_at row order primes
    at_index rest zero ih f e p = ground arith
    at_index rest (suc k) ih f e p = ih k row f p

-- A chain whose first row has one entry draws that row's prime from the end of the entry's pool, as
-- the chain of that row alone does.
first_prime :
    (pools : Pools) (bits : ℕ) (qs fss : QList)
    → get_primes_from_precisions_list pools ((bits ∷ []) ∷ qs) ≡ ok fss
    → (prime : ℕ) × (rest : QList) × (fss ≡ (prime ∷ []) ∷ rest)
      × (get_primes_from_precisions_list pools ((bits ∷ []) ∷ []) ≡ ok ((prime ∷ []) ∷ []))
unfolding get_primes_from_precisions_list precisions_needed relative_precisions has_unknown
    has_shortage draw unflatten_from
first_prime pools bits qs fss h = elim (Result-cases (precisions_needed qs)) [
  | inr (x, p) ↦ ground arith
  | inl (ps, p) ↦ elim (Option-cases (lookup bits pools)) [
    | inl e ↦ ground arith
    | inr ([], e) ↦ ground arith
    | inr (x ∷ l, e) ↦ elim (Option-cases (pop (x ∷ l))) [
      | inl f ↦ ground arith
      | inr ((prime, left), f) ↦ elim (Result-cases (draw ps (update bits left pools))) [
        | inr (y, g) ↦ ground arith
        | inl (xs, g) ↦ (
          prime,
          unflatten_from (0 + 1) (prime ∷ xs) (map (length {A = ℕ}) qs),
          ground arith,
          ground arith,
        )
      ]
    ]
  ]
]

first_row_prime :
    (pools : Pools) (full : QList) (k bits : ℕ) (tail : List ℕ) (qs primes fss : QList)
    → gather full (k ∷ tail) ≡ ok qs
    → get_elem? full k ≡ some (bits ∷ [])
    → get_primes_from_precisions_list pools qs ≡ ok primes
    → drawn_rows (k ∷ tail) primes (range_from 0 (length full)) ≡ ok fss
    → (prime : ℕ) × (get_elem? fss k ≡ some (prime ∷ []))
      × (get_primes_from_precisions_list pools ((bits ∷ []) ∷ []) ≡ ok ((prime ∷ []) ∷ []))
unfolding drawn_at
first_row_prime pools full k bits tail qs primes fss g at f d =
    let (q, rest, at', more, same) = gather-cons full k tail g in
    let head : q ≡ bits ∷ [] = cc in
    let drawn : get_primes_from_precisions_list pools ((bits ∷ []) ∷ rest) ≡ ok primes =
      rw (same, head) at f in
    let (prime, others, first, alone) = first_prime pools bits rest primes drawn in
    let place : get_elem? (range_from 0 (length full)) k ≡ some k =
      get_elem?-range 0 (length full) k (get_elem?-lt full k at) ∙ ap some (omega arith) in
    let found : drawn_at k (k ∷ tail) primes ≡ some (prime ∷ []) = rw first (ground arith) in
    (
      prime,
      get_elem?-drawn_rows (k ∷ tail) primes (range_from 0 (length full)) fss k k d place ∙ found,
      alone,
    )

-- Where the sections of a bootstrap put the base row.
module _ (p : HomParams) (b : BootstrappingParams) (boot : p.boot_params ≡ some b) where
  abbrev base_row : ℕ
  base_row =
      0
      + length p.full_q_list_precision
      + length b.cts_q_list_precision
      + length b.eval_mod_q_list_precision
      + length b.stc_q_list_precision

  base_rows : rows_of boot_base (section_rows_from 0 (mod_chain_sections p)) ≡ some (base_row ∷ [])
  unfolding mod_chain_sections section_rows_from rows_of
  base_rows = rw (boot, boot_sections) refl

  base_in_list :
      get_elem? (full_q_list_of (mod_chain_sections p)) base_row ≡ some (b.q_base_precision ∷ [])
  unfolding mod_chain_sections full_q_list_of
  base_in_list =
      let e : base_row
          ≡ length p.full_q_list_precision
            + (length b.cts_q_list_precision
                + (length b.eval_mod_q_list_precision + (length b.stc_q_list_precision + 0))) =
        omega arith in
      rw (boot, boot_sections) (rw e (simp get_elem?-append_skip))

  module _ (pools : Pools) (c : ModulusChain) (h : make_chain pools p ≡ ok c) where
    made : IsMade pools p c
    made = make_chain-IsMade pools p c h

    base_rows_chain : rows_of boot_base c.section_rows ≡ some (base_row ∷ [])
    base_rows_chain = rw made.section_rows base_rows

    base_at : get_elem? c.full_q_list base_row ≡ some (b.q_base_precision ∷ [])
    base_at = rw made.full_q_list base_in_list

    base_lt : base_row < length c.full_q_list
    base_lt = get_elem?-lt c.full_q_list base_row base_at

    order_base :
        order pools c.section_rows c.full_q_list
        ≡ base_row ∷ without (base_row ∷ []) (range_from 0 (length c.full_q_list))
    unfolding draw_order
    order_base = rw (base_rows_chain, base_rows_of)

    -- When the chain of a pipeline that bootstraps is made, its bootstrap base is one row with one
    -- prime, and that prime is the one that a chain of the base row alone would be given.
    pub base_prime_shared :
        (row prime : ℕ) × (rows_of boot_base c.section_rows ≡ some (row ∷ []))
        × (get_elem? c.factors_per_row row ≡ some (prime ∷ []))
        × (get_primes_from_precisions_list pools ((b.q_base_precision ∷ []) ∷ [])
            ≡ ok ((prime ∷ []) ∷ []))
    base_prime_shared =
        let (qs, primes, g, f, d, sizes) =
          factors_of-ok pools c.section_rows c.full_q_list c.factors_per_row made.factors in
        let (prime, at, alone) =
          first_row_prime pools c.full_q_list base_row b.q_base_precision
            (without (base_row ∷ []) (range_from 0 (length c.full_q_list))) qs primes
            c.factors_per_row (rw order_base at g) base_at f (rw order_base at d) in
        (base_row, prime, base_rows_chain, at, alone)
