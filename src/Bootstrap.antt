-- ===== src/Bootstrap.antt =====
-- lattica_build_src/lattica_build/params/bootstrapping_params.py: the modulus rows that a bootstrap
-- needs, and the split of its DFT stages for each number of slots.
pub mod BitLength
pub mod Table
pub mod Rows
pub mod Split
use lattica_studio.Prelude.{
  ℕ, zero, suc, ◌+◌, ◌-◌, ◌*◌, ◌/◌, ◌%◌, ◌^◌, List, [], ◌∷◌, ◌++◌, Option, none, some, Bool, true,
  false, ◌||◌, not, length, replicate, ltb, leb, ◌==◌, if◌then◌else◌, ◌&&◌,
}
use lattica_studio.Result.{Result, ok, err, value_error, raise_if, or_raise, ◌>>=◌, ◌>>◌}
use lattica_studio.Primes.{QList}
use lattica_studio.Bootstrap.BitLength.{bit_length}

-- BOOT_CONFIGURATION, the entries that this module reads
abbrev pub eval_mod_scale : ℕ
eval_mod_scale = 53

abbrev pub stc_scale : ℕ
stc_scale = 30

abbrev pub n_cosine_levels : ℕ
n_cosine_levels = 5

abbrev pub n_double_angle : ℕ
n_double_angle = 3

abbrev pub n_arcsine_levels : ℕ
n_arcsine_levels = 0

abbrev pub wrap_bound : ℕ
wrap_bound = 16

abbrev pub log_delta_slim : ℕ
log_delta_slim = 12

-- A split, the bits of a CtS prime and log_delta.
abbrev pub SlotEntry : Type 0
SlotEntry = List ℕ × ℕ × ℕ

-- BOOT_PARAMS_PER_N_SLOTS
abbrev pub boot_params_per_n_slots : List (ℕ × SlotEntry)
boot_params_per_n_slots =
    (5, (5 ∷ [], 55, 9))
    ∷ (6, (3 ∷ 3 ∷ [], 44, 8))
    ∷ (7, (3 ∷ 4 ∷ [], 45, 8))
    ∷ (8, (3 ∷ 5 ∷ [], 46, 7))
    ∷ (9, (4 ∷ 5 ∷ [], 47, 7))
    ∷ (10, (3 ∷ 3 ∷ 4 ∷ [], 45, 7))
    ∷ (11, (3 ∷ 3 ∷ 5 ∷ [], 46, 6))
    ∷ (12, (3 ∷ 3 ∷ 3 ∷ 3 ∷ [], 45, 6))
    ∷ (13, (3 ∷ 3 ∷ 3 ∷ 4 ∷ [], 46, 5))
    ∷ (14, (3 ∷ 3 ∷ 3 ∷ 5 ∷ [], 47, 5))
    ∷ (15, (3 ∷ 3 ∷ 4 ∷ 5 ∷ [], 47, 4))
    ∷ []

unfoldable pub find_entry : ℕ → List (ℕ × SlotEntry) → Option SlotEntry
find_entry k [] = none
find_entry k ((j, e) ∷ table) = if j == k then some e else find_entry k table

-- `n_slots.bit_length() - 1` is -1 at 0, which has no entry.
abbrev pub entry_of_bits : ℕ → Option SlotEntry
entry_of_bits zero = none
entry_of_bits (suc k) = find_entry k boot_params_per_n_slots

unfoldable pub n_slots_entry : ℕ → Result SlotEntry
unfolding find_entry
n_slots_entry n_slots = or_raise (entry_of_bits (bit_length n_slots)) value_error

unfoldable pub get_q_list_precision : ℕ → ℕ → Result QList
get_q_list_precision scale levels = do
  raise_if (ltb scale 25 || ltb 62 scale) value_error
  raise_if (leb levels 0) value_error
  ok (
      if ltb scale 32
      then replicate (levels / 2) (2 * scale ∷ scale ∷ []) ++ replicate (levels % 2) (scale ∷ [])
      else replicate levels (scale ∷ []))

pub record BootstrappingParams : Type 0 where
  pub real_boot : Bool
  pub slim_boot : Bool
  pub dft_levels : ℕ
  pub cts_scale : ℕ
  pub stc_q_list_precision : QList
  pub cts_q_list_precision : QList
  pub eval_mod_q_list_precision : QList
  pub q_list_precision : QList
  pub q_base_precision : ℕ
  pub modulus : ℕ
  pub cosine_deg : ℕ
  pub arcsine_deg : ℕ

-- `sum(row[0] for row in rows)`, for rows that are not empty
abbrev pub sum_of_heads : QList → ℕ
sum_of_heads [] = 0
sum_of_heads ([] ∷ rows) = sum_of_heads rows
sum_of_heads ((x ∷ _) ∷ rows) = x + sum_of_heads rows

-- `__init__`
unfoldable pub init : Bool → Bool → ℕ → ℕ → Result BootstrappingParams
init real_boot slim_boot dft_levels cts_scale = do
  raise_if (ltb dft_levels 1) value_error
  raise_if (ltb cts_scale 1) value_error
  stc ← get_q_list_precision stc_scale dft_levels
  cts ← get_q_list_precision cts_scale dft_levels
  eval_mod ←
      get_q_list_precision eval_mod_scale (n_cosine_levels + n_double_angle + n_arcsine_levels)
  raise_if (ltb (2 ^ n_cosine_levels - 2) (2 * wrap_bound - 2)) value_error
  ok (record {
    real_boot = real_boot;
    slim_boot = slim_boot;
    dft_levels = dft_levels;
    cts_scale = cts_scale;
    stc_q_list_precision = stc;
    cts_q_list_precision = cts;
    eval_mod_q_list_precision = eval_mod;
    q_list_precision = cts ++ (eval_mod ++ stc);
    q_base_precision = eval_mod_scale;
    modulus = sum_of_heads (cts ++ (eval_mod ++ stc)) + eval_mod_scale;
    cosine_deg = 2 ^ n_cosine_levels - 2;
    arcsine_deg = 2 ^ n_arcsine_levels - 1;
  })

unfoldable pub entries_of : List ℕ → Result (List SlotEntry)
entries_of [] = ok []
entries_of (n ∷ ns) = do e ← n_slots_entry n; es ← entries_of ns; ok (e ∷ es)

-- `max` of a sequence, which must have an entry
unfoldable pub max_of : List ℕ → Option ℕ
max_of [] = none
max_of (x ∷ xs) = elim (max_of xs) [ none ↦ some x | some m ↦ some (if ltb x m then m else x) ]

abbrev pub levels_of : List SlotEntry → List ℕ
levels_of [] = []
levels_of ((split, _, _) ∷ es) = length split ∷ levels_of es

abbrev pub bits_of : List SlotEntry → List ℕ
bits_of [] = []
bits_of ((_, bits, _) ∷ es) = bits ∷ bits_of es

unfoldable pub for_slot_counts : Bool → Bool → List ℕ → Result BootstrappingParams
for_slot_counts real_boot slim_boot slot_counts = do
  entries ← entries_of slot_counts
  dft_levels ← or_raise (max_of (levels_of entries)) value_error
  cts_scale ← or_raise (max_of (bits_of entries)) value_error
  init real_boot slim_boot dft_levels cts_scale

-- The SLIM branch of `dft_split`, at `log_n_slots`.
unfoldable pub slim_split : ℕ → ℕ → Result (List ℕ)
slim_split n_levels log_n_slots = do
  raise_if (not (leb 1 n_levels && leb n_levels log_n_slots)) value_error
  let q = log_n_slots / n_levels
  let r = log_n_slots % n_levels
  ok (replicate r (q + 1) ++ replicate (n_levels - r) q)

unfoldable pub dft_split : BootstrappingParams → ℕ → Result (List ℕ)
dft_split b n_slots =
    if not b.slim_boot
    then (do
      (split, cts_bits, _) ← n_slots_entry n_slots
      raise_if (ltb b.dft_levels (length split) || ltb b.cts_scale cts_bits) value_error
      ok split)
    else slim_split b.dft_levels (bit_length n_slots - 1)

unfoldable pub log_delta_for : BootstrappingParams → ℕ → Result ℕ
log_delta_for b n_slots =
    if b.slim_boot
    then ok log_delta_slim
    else do (_, _, log_delta) ← n_slots_entry n_slots; ok log_delta
