-- ===== src/Tests/Rows.antt =====
-- The modulus chain, its primes and its rows at a small chain.
use lattica_studio.Prelude.{
  ℕ, ◌≤◌, ◌<◌, ◌++◌, ◌≡◌, refl, List, [], ◌∷◌, none, some, true, false, length, get_elem?,
}
use lattica_studio.Prelude.Count.{count, IsIn}
use lattica_studio.Prelude.Int.{pos}
use lattica_studio.Result.{ok, value_error, runtime_error, index_error}
use lattica_studio.Primes.{
  QList, relative_precisions, precisions_needed, has_unknown, has_shortage, draw, unflatten_from,
  get_primes_from_precisions_list,
}
use lattica_studio.Primes.Pool.{Pools, lookup, update, pop, count_all}
use lattica_studio.Primes.Draws.{FromPools, Suffices, available}
use lattica_studio.Primes.Total.{
  IsDecreasing, AllDecreasing, all_steps, AllKnown, Succeeds, Raises, assignment_total,
}
use lattica_studio.Primes.Assigned.{assigned_primes, lengths, flatten}
use lattica_studio.Bootstrap.{BootstrappingParams, max_of}
use lattica_studio.Bootstrap.BitLength.{bit_length, bits_with}
use lattica_studio.Params.{HomParams, hybrid}
use lattica_studio.Chain.{
  ModulusChain, pipeline, boot_cts, boot_eval, boot_stc, boot_base, special_primes, make_chain,
  mod_chain_sections, section_rows_from, full_q_list_of, rows_of, gather, is_in, without, drawn_at,
  drawn_rows, draw_order, factors_of, range_from, get_all_rows,
}
use lattica_studio.Chain.Sections.{sections_cover_rows}
use lattica_studio.Chain.Factors.{factors_match_rows}
use lattica_studio.Chain.Base.{base_prime_shared}

abbrev boot : BootstrappingParams
boot = record {
  real_boot = true;
  slim_boot = false;
  dft_levels = 1;
  cts_scale = 45;
  stc_q_list_precision = (60 ∷ 30 ∷ []) ∷ [];
  cts_q_list_precision = (45 ∷ []) ∷ [];
  eval_mod_q_list_precision = (53 ∷ []) ∷ [];
  q_list_precision = (45 ∷ []) ∷ (53 ∷ []) ∷ (60 ∷ 30 ∷ []) ∷ [];
  q_base_precision = 53;
  modulus = 211;
  cosine_deg = 30;
  arcsine_deg = 0;
}

abbrev pub params : HomParams
params = record {
  n = 64;
  full_q_list_precision = (40 ∷ []) ∷ (60 ∷ 30 ∷ []) ∷ [];
  pt_scale = 10;
  sk_hw = 8;
  bv_gadget_bits = pos 4;
  num_special_primes = 0;
  decomposition_type = hybrid;
  num_init_rows = none;
  real_boot = true;
  slim_boot = false;
  n_slots = 32;
  ghs_keyswtich_scale_precision = none;
  g_base_bits = 4;
  boot_params = some boot;
}

abbrev pools : Pools
pools = (30, 31 ∷ 37 ∷ 41 ∷ 43 ∷ []) ∷ (40, 47 ∷ []) ∷ (45, 53 ∷ []) ∷ (53, 59 ∷ 61 ∷ []) ∷ []

abbrev pub chain : ModulusChain
chain = record {
  section_rows =
      (pipeline, 0 ∷ 1 ∷ [])
      ∷ (boot_cts, 2 ∷ [])
      ∷ (boot_eval, 3 ∷ [])
      ∷ (boot_stc, 4 ∷ [])
      ∷ (boot_base, 5 ∷ [])
      ∷ (special_primes, [])
      ∷ [];
  full_q_list =
      (40 ∷ []) ∷ (60 ∷ 30 ∷ []) ∷ (45 ∷ []) ∷ (53 ∷ []) ∷ (60 ∷ 30 ∷ []) ∷ (53 ∷ []) ∷ [];
  max_num_cols = 2;
  num_rows = 6;
  full_active_rows = 0 ∷ 1 ∷ 2 ∷ 3 ∷ 4 ∷ 5 ∷ [];
  full_active_cols =
      (1 ∷ 0 ∷ []) ∷ (1 ∷ 1 ∷ []) ∷ (1 ∷ 0 ∷ []) ∷ (1 ∷ 0 ∷ []) ∷ (1 ∷ 1 ∷ []) ∷ (1 ∷ 0 ∷ []) ∷ [];
  factors_per_row =
      (47 ∷ []) ∷ (43 ∷ 41 ∷ []) ∷ (53 ∷ []) ∷ (59 ∷ []) ∷ (37 ∷ 31 ∷ []) ∷ (61 ∷ []) ∷ [];
  drop_order = [];
}

chain_runs : make_chain pools params ≡ ok chain
unfolding make_chain mod_chain_sections section_rows_from full_q_list_of max_of factors_of
    draw_order rows_of without is_in gather get_primes_from_precisions_list precisions_needed
    relative_precisions has_unknown has_shortage lookup update pop draw unflatten_from drawn_rows
    drawn_at
chain_runs = refl

sections_cover_rows_example :
    (get_all_rows chain ≡ ok (range_from 0 chain.num_rows))
    × (chain.num_rows ≡ length chain.full_q_list)
sections_cover_rows_example = sections_cover_rows pools params chain chain_runs

factors_match_rows_example : lengths chain.factors_per_row ≡ lengths chain.full_q_list
factors_match_rows_example = factors_match_rows pools params chain chain_runs

base_prime_shared_example :
    (row prime : ℕ) × (rows_of boot_base chain.section_rows ≡ some (row ∷ []))
    × (get_elem? chain.factors_per_row row ≡ some (prime ∷ []))
    × (get_primes_from_precisions_list pools ((53 ∷ []) ∷ []) ≡ ok ((prime ∷ []) ∷ []))
base_prime_shared_example = base_prime_shared params boot refl pools chain chain_runs

abbrev rows : QList
rows = (60 ∷ 30 ∷ []) ∷ (53 ∷ []) ∷ []

rows_run : get_primes_from_precisions_list pools rows ≡ ok ((43 ∷ 41 ∷ []) ∷ (61 ∷ []) ∷ [])
unfolding get_primes_from_precisions_list precisions_needed relative_precisions has_unknown
    has_shortage lookup update pop draw unflatten_from
rows_run = refl

assigned_primes_example :
    (lengths ((43 ∷ 41 ∷ []) ∷ (61 ∷ []) ∷ []) ≡ lengths rows)
    × ((ps : List ℕ) × (precisions_needed rows ≡ ok ps)
        × FromPools pools ps (flatten ((43 ∷ 41 ∷ []) ∷ (61 ∷ []) ∷ [])))
    × ((a : ℕ) → count a (flatten ((43 ∷ 41 ∷ []) ∷ (61 ∷ []) ∷ [])) ≤ count_all a pools)
assigned_primes_example = assigned_primes pools rows ((43 ∷ 41 ∷ []) ∷ (61 ∷ []) ∷ []) rows_run

-- There are two primes of 30 bits too few: the rows need six.
abbrev wide_rows : QList
wide_rows = (60 ∷ 30 ∷ []) ∷ (60 ∷ 30 ∷ []) ∷ (60 ∷ 30 ∷ []) ∷ []

assignment_total_example :
    (AllDecreasing wide_rows → Suffices (all_steps wide_rows) pools → Succeeds pools wide_rows)
    × ((p : ℕ)
        → AllDecreasing wide_rows
        → IsIn p (all_steps wide_rows)
        → lookup p pools ≡ none
        → Raises pools wide_rows value_error)
    × ((p : ℕ)
        → AllDecreasing wide_rows
        → AllKnown (all_steps wide_rows) pools
        → available p pools < count p (all_steps wide_rows)
        → Raises pools wide_rows runtime_error)
    × ((before after : QList) (a : ℕ) (row : List ℕ)
        → AllDecreasing before
        → (IsDecreasing (a ∷ row) → ⊥)
        → wide_rows ≡ before ++ (a ∷ row) ∷ after
        → Raises pools wide_rows value_error)
    × ((before after : QList)
        → AllDecreasing before
        → wide_rows ≡ before ++ [] ∷ after
        → Raises pools wide_rows index_error)
assignment_total_example = assignment_total pools wide_rows

bits_run : bit_length 12 ≡ 4
unfolding bit_length bits_with
bits_run = refl
