-- ===== src/Tests/Counts.antt =====
-- A bootstrap for two slot counts, and the parameters that hold it.
use lattica_studio.Prelude.{
  ℕ, ◌-◌, ◌≤◌, ◌≡◌, refl, List, [], ◌∷◌, none, some, true, false, inl, length,
}
use lattica_studio.Prelude.Int.{pos}
use lattica_studio.Result.{ok}
use lattica_studio.Bootstrap.{
  BootstrappingParams, dft_split, for_slot_counts, get_q_list_precision, entries_of, n_slots_entry,
  find_entry, max_of, init,
}
use lattica_studio.Bootstrap.BitLength.{bit_length, bits_with}
use lattica_studio.Bootstrap.Table.{sum}
use lattica_studio.Bootstrap.Split.{for_slot_counts_fits}
use lattica_studio.Params.{
  Args, HomParams, hybrid, member, make, is_power_of_two, key_switch_bases, slots_of,
}
use lattica_studio.Params.Dict.{from_dict, to_dict}
use lattica_studio.Params.RoundTrip.{from_dict-to_dict}

abbrev two_counts : BootstrappingParams
two_counts = record {
  real_boot = true;
  slim_boot = false;
  dft_levels = 2;
  cts_scale = 55;
  stc_q_list_precision = (60 ∷ 30 ∷ []) ∷ [];
  cts_q_list_precision = (55 ∷ []) ∷ (55 ∷ []) ∷ [];
  eval_mod_q_list_precision =
      (53 ∷ [])
      ∷ (53 ∷ [])
      ∷ (53 ∷ [])
      ∷ (53 ∷ [])
      ∷ (53 ∷ [])
      ∷ (53 ∷ [])
      ∷ (53 ∷ [])
      ∷ (53 ∷ [])
      ∷ [];
  q_list_precision =
      (55 ∷ [])
      ∷ (55 ∷ [])
      ∷ (53 ∷ [])
      ∷ (53 ∷ [])
      ∷ (53 ∷ [])
      ∷ (53 ∷ [])
      ∷ (53 ∷ [])
      ∷ (53 ∷ [])
      ∷ (53 ∷ [])
      ∷ (53 ∷ [])
      ∷ (60 ∷ 30 ∷ [])
      ∷ [];
  q_base_precision = 53;
  modulus = 647;
  cosine_deg = 30;
  arcsine_deg = 0;
}

slots_run : for_slot_counts true false (32 ∷ 64 ∷ []) ≡ ok two_counts
unfolding for_slot_counts entries_of n_slots_entry find_entry bit_length bits_with max_of init
    get_q_list_precision
slots_run = refl

for_slot_counts_fits_example :
    (split : List ℕ) × (dft_split two_counts 32 ≡ ok split)
    × (sum split ≡ bit_length 32 - 1)
    × (length split ≤ 2)
for_slot_counts_fits_example =
    for_slot_counts_fits true false (32 ∷ 64 ∷ []) two_counts 32 slots_run (inl refl)

abbrev args : Args
args = record {
  n = pos 64;
  full_q_list_precision = (40 ∷ []) ∷ [];
  pt_scale = pos 10;
  err_std_ok = true;
  sk_hw = pos 8;
  bv_gadget_bits = pos 8;
  num_special_primes = pos 1;
  decomposition_type = member hybrid;
  num_init_rows = some (pos 1);
  real_boot = true;
  slim_boot = false;
  n_slots = some (pos 16);
}

abbrev accepted : HomParams
accepted = record {
  n = 64;
  full_q_list_precision = (40 ∷ []) ∷ [];
  pt_scale = 10;
  sk_hw = 8;
  bv_gadget_bits = pos 8;
  num_special_primes = 1;
  decomposition_type = hybrid;
  num_init_rows = some 1;
  real_boot = true;
  slim_boot = false;
  n_slots = 16;
  ghs_keyswtich_scale_precision = some (61 ∷ []);
  g_base_bits = 61;
  boot_params = none;
}

args_run : make args ≡ ok accepted
unfolding make is_power_of_two key_switch_bases slots_of
args_run = refl

power_run : is_power_of_two (pos 16) ≡ true
unfolding is_power_of_two
power_run = refl

boot_run : init true false 2 55 ≡ ok two_counts
unfolding init get_q_list_precision
boot_run = refl

from_dict-to_dict_example :
    from_dict (to_dict (record accepted { boot_params = some two_counts }) (some (0 ∷ [])))
    ≡ ok (record accepted { bv_gadget_bits = pos 4; boot_params = some two_counts }, some (0 ∷ []))
from_dict-to_dict_example =
    from_dict-to_dict args accepted (some two_counts) (some (0 ∷ [])) args_run power_run boot_run
