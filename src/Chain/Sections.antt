-- ===== src/Chain/Sections.antt =====
-- The sections of a chain share out its rows.
use lattica_studio.Prelude.{
  ℕ, zero, suc, ◌+◌, ◌≡◌, refl, sym, ap, ◌∙◌, List, [], ◌∷◌, ◌++◌, map, length, length-append,
  arith, Option-cases, inl, inr,
}
use lattica_studio.Result.{ok, Result-cases}
use lattica_studio.Primes.{QList}
use lattica_studio.Primes.Pool.{Pools}
use lattica_studio.Bootstrap.{max_of}
use lattica_studio.Params.{HomParams}
use lattica_studio.Chain.{
  SectionName, ModulusChain, mod_chain_sections, range_from, section_rows_from, full_q_list_of,
  rows_of, make_chain, get_rows_of_sections, get_all_rows, factors_of,
}

-- What the constructor puts into the fields.
pub record IsMade (pools : Pools) (p : HomParams) (c : ModulusChain) : Type 0 where
  pub section_rows : c.section_rows ≡ section_rows_from 0 (mod_chain_sections p)
  pub full_q_list : c.full_q_list ≡ full_q_list_of (mod_chain_sections p)
  pub num_rows : c.num_rows ≡ length c.full_q_list
  pub full_active_rows : c.full_active_rows ≡ range_from 0 c.num_rows
  pub factors : factors_of pools c.section_rows c.full_q_list ≡ ok c.factors_per_row

pub make_chain-IsMade :
    (pools : Pools) (p : HomParams) (c : ModulusChain)
    → make_chain pools p ≡ ok c
    → IsMade pools p c
unfolding make_chain
make_chain-IsMade pools p c h =
    let full = full_q_list_of (mod_chain_sections p) in
    let rows = section_rows_from 0 (mod_chain_sections p) in
    elim (Option-cases (max_of (map (length {A = ℕ}) full))) [
      | inl e ↦ ground arith
      | inr (m, e) ↦ elim (Result-cases (factors_of pools rows full)) [
        | inr (x, f) ↦ ground arith
        | inl (fs, f) ↦ ground arith
      ]
    ]

pub range-append :
    (start n m : ℕ) → range_from start n ++ range_from (start + n) m ≡ range_from start (n + m)
range-append start zero m =
    let e : start + zero ≡ start = omega arith in let f : zero + m ≡ m = omega arith in rw (e, f)
range-append start (suc n) m =
    let e : start + suc n ≡ suc start + n = omega arith in
    let f : suc n + m ≡ suc (n + m) = omega arith in
    rw (e, f) (ap (λ t. start ∷ t) (range-append (suc start) n m))

abbrev concat_rows : List (SectionName × List ℕ) → List ℕ
concat_rows [] = []
concat_rows ((_, rows) ∷ sections) = rows ++ concat_rows sections

concat_rows-range :
    (start : ℕ) (sections : List (SectionName × QList))
    → concat_rows (section_rows_from start sections)
      ≡ range_from start (length (full_q_list_of sections))
unfolding section_rows_from full_q_list_of
concat_rows-range start [] = refl
concat_rows-range start ((name, q) ∷ sections) =
    ap (λ t. range_from start (length q) ++ t) (concat_rows-range (start + length q) sections)
    ∙ range-append start (length q) (length (full_q_list_of sections))
    ∙ ap (range_from start) (sym (length-append q (full_q_list_of sections)))

get_all_rows-concat :
    (c : ModulusChain) (p : HomParams)
    → c.section_rows ≡ section_rows_from 0 (mod_chain_sections p)
    → get_all_rows c ≡ ok (concat_rows c.section_rows)
unfolding get_all_rows get_rows_of_sections rows_of section_rows_from mod_chain_sections
get_all_rows-concat c p h = elim (Option-cases p.boot_params) [
  | inl e ↦ let rows = (rw (e, mod_chain_sections) at h) in rw rows
  | inr (b, e) ↦ let rows = (rw (e, mod_chain_sections) at h) in rw rows
]

-- The sections of a chain, taken in order, hold every row from 0 up to the number of rows exactly once,
-- in increasing order.
pub sections_cover_rows :
    (pools : Pools) (p : HomParams) (c : ModulusChain)
    → make_chain pools p ≡ ok c
    → (get_all_rows c ≡ ok (range_from 0 c.num_rows)) × (c.num_rows ≡ length c.full_q_list)
sections_cover_rows pools p c h =
    let made = make_chain-IsMade pools p c h in
    (
      get_all_rows-concat c p made.section_rows
          ∙ ap ok (
              ap concat_rows made.section_rows
              ∙ concat_rows-range 0 (mod_chain_sections p)
              ∙ ap (λ q. range_from 0 (length q)) (sym made.full_q_list)
              ∙ ap (range_from 0) (sym made.num_rows)),
      made.num_rows,
    )
