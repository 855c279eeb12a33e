-- ===== src/Tests/Chains.antt =====
-- The chain of a pipeline with a bootstrap.
use lattica_studio.Prelude.{ℕ, ◌≡◌, refl, List, [], ◌∷◌, Option, none, replicate}
use lattica_studio.Result.{Result, ok, err}
use lattica_studio.Bootstrap.{
  for_slot_counts, get_q_list_precision, entries_of, n_slots_entry, find_entry, max_of, init,
}
use lattica_studio.Bootstrap.BitLength.{bit_length, bits_with}
use lattica_studio.Primes.{
  relative_precisions, precisions_needed, has_unknown, has_shortage, draw, unflatten_from,
  get_primes_from_precisions_list,
}
use lattica_studio.Primes.Pool.{Pools, lookup, update, pop}
use lattica_studio.Params.{HomParams, make, is_power_of_two, key_switch_bases, slots_of}
use lattica_studio.Chain.{
  ModulusChain, make_chain, mod_chain_sections, section_rows_from, full_q_list_of, rows_of, gather,
  is_in, without, drawn_at, drawn_rows, draw_order, factors_of,
}
use lattica_studio.Pipeline.{OpType, bootstrap, ring_switch, other}
use lattica_studio.Pipeline.Bootstraps.{Bootstraps, StartsWithSwitch}
use lattica_studio.Pipeline.SetUp.{set_ring_switch, set_boot, set_up}
use lattica_studio.Pipeline.BootRows.{IsPlain}
use lattica_studio.Pipeline.Served.{IsBooted, IsSwitched, set_up_lem}
use lattica_studio.Tests.Rows.{params, chain}

abbrev pools : Pools
pools = (30, replicate 9 31) ∷ (40, 47 ∷ []) ∷ (53, replicate 9 59) ∷ (55, 61 ∷ 67 ∷ []) ∷ []

abbrev few_slots : HomParams
few_slots = record params { n_slots = 16 }

-- The first operator switches from the ring of 32, and a later one is a bootstrap.
abbrev types : List OpType
types = ring_switch 5 ∷ other 3 ∷ bootstrap ∷ []

abbrev Made : Type 0
Made = Option HomParams × HomParams × ModulusChain

abbrev or_none : Result Made → Made
or_none (ok made) = made
or_none (err e) = (none, params, chain)

abbrev made : Made
made = or_none (set_up pools few_slots types (ok (32 ∷ 64 ∷ [])))

set_up_run : set_up pools few_slots types (ok (32 ∷ 64 ∷ [])) ≡ ok (made.0, made.1, made.2)
unfolding set_up set_ring_switch make is_power_of_two key_switch_bases slots_of set_boot
    for_slot_counts entries_of n_slots_entry find_entry bit_length bits_with max_of init
    get_q_list_precision make_chain mod_chain_sections section_rows_from full_q_list_of factors_of
    draw_order drawn_rows drawn_at gather is_in without rows_of get_primes_from_precisions_list
    relative_precisions precisions_needed has_unknown has_shortage draw unflatten_from lookup update
    pop
set_up_run = refl

set_up_lem_example :
    ((Bootstraps types → ⊥) → IsPlain made.1 made.2)
    × (Bootstraps types → IsBooted (ok (32 ∷ 64 ∷ [])) made.1 made.2)
    × ((log_n : ℕ) → StartsWithSwitch types log_n → IsSwitched few_slots made.1 made.0 log_n)
    × (((log_n : ℕ) → StartsWithSwitch types log_n → ⊥)
        → (made.0 ≡ none) × (made.1.num_init_rows ≡ few_slots.num_init_rows))
set_up_lem_example =
    set_up_lem pools few_slots made.1 types (ok (32 ∷ 64 ∷ [])) made.0 made.2 set_up_run
