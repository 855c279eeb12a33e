-- ===== src/Bootstrap/Table.antt =====
-- The entries of BOOT_PARAMS_PER_N_SLOTS.
use lattica_studio.Prelude.{ℕ, zero, suc, ◌+◌, ◌-◌, ◌≤◌, ◌≡◌, List, [], ◌∷◌, some, length, arith}
use lattica_studio.Result.{ok, value_error, or_raise-ok}
use lattica_studio.Bootstrap.{
  SlotEntry, boot_params_per_n_slots, find_entry, entry_of_bits, n_slots_entry,
}
use lattica_studio.Bootstrap.BitLength.{bit_length}

abbrev pub sum : List ℕ → ℕ
sum [] = 0
sum (x ∷ xs) = x + sum xs

-- A split of `k` stages into at most four parts, with CtS primes that `get_q_list_precision` takes.
abbrev pub IsEntry : ℕ → SlotEntry → Type 0
IsEntry k (split, bits, log_delta) =
    (sum split ≡ k) × (1 ≤ length split) × (length split ≤ 4) × (5 ≤ k) × (32 ≤ bits) × (bits ≤ 62)

abbrev AllEntries : List (ℕ × SlotEntry) → Type 0
AllEntries [] = Unit
AllEntries ((k, e) ∷ table) = IsEntry k e × AllEntries table

table_valid : AllEntries boot_params_per_n_slots
table_valid = omega arith

find_entry-IsEntry :
    (k : ℕ) (e : SlotEntry) (table : List (ℕ × SlotEntry))
    → AllEntries table
    → find_entry k table ≡ some e
    → IsEntry k e
unfolding find_entry
find_entry-IsEntry k e [] h f = cc
find_entry-IsEntry k e ((j, d) ∷ table) h f = ground (arith, find_entry-IsEntry k e table h.1)

entry_of_bits-IsEntry :
    (bits : ℕ) (e : SlotEntry) → entry_of_bits bits ≡ some e → IsEntry (bits - 1) e
entry_of_bits-IsEntry zero e h = cc
entry_of_bits-IsEntry (suc k) e h =
    let p : suc k - 1 ≡ k = omega arith in
    rw p (find_entry-IsEntry k e boot_params_per_n_slots table_valid h)

pub n_slots_entry-IsEntry :
    (n : ℕ) (e : SlotEntry) → n_slots_entry n ≡ ok e → IsEntry (bit_length n - 1) e
unfolding n_slots_entry
n_slots_entry-IsEntry n e h =
    entry_of_bits-IsEntry (bit_length n) e
      (or_raise-ok (entry_of_bits (bit_length n)) value_error h)
