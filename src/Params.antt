-- ===== src/Params.antt =====
-- lattica_build_src/lattica_build/params/params.py: the checked parameters of the encryption scheme.
pub mod Valid
pub mod Dict
pub mod Again
pub mod RoundTrip
use Prim.Native.Nat.{bit_and}
use lattica_studio.Prelude.{
  ℕ, zero, suc, ◌+◌, ◌-◌, ◌*◌, ◌/◌, List, [], ◌∷◌, Option, none, some, Bool, true, false, ◌||◌,
  ◌&&◌, not, length, replicate, ltb, leb, ◌==◌, if◌then◌else◌,
}
use lattica_studio.Prelude.Int.{ℤ, pos, negsuc}
use lattica_studio.Result.{Result, ok, err, value_error, type_error, raise_if, ◌>>=◌, ◌>>◌}
use lattica_studio.Primes.{QList}
use lattica_studio.Bootstrap.{BootstrappingParams}

pub data DecompositionType : Type 0 where
  bv hybrid : DecompositionType

-- A value given for the type: a member or the text of one, another text, or a value of another type.
pub data DecompositionArg : Type 0 where
  member : DecompositionType → DecompositionArg
  unknown_text : DecompositionArg
  not_text : DecompositionArg

unfoldable pub is_power_of_two : ℤ → Bool
is_power_of_two (negsuc x) = false
is_power_of_two (pos x) = ltb 0 x && bit_and x (x - 1) == 0

-- The arguments of the constructor. `err_std` is a float: `err_std_ok` is the outcome of its check, that
-- it is a real number and not negative.
pub record Args : Type 0 where
  pub n : ℤ
  pub full_q_list_precision : QList
  pub pt_scale : ℤ
  pub err_std_ok : Bool
  pub sk_hw : ℤ
  pub bv_gadget_bits : ℤ
  pub num_special_primes : ℤ
  pub decomposition_type : DecompositionArg
  pub num_init_rows : Option ℤ
  pub real_boot : Bool
  pub slim_boot : Bool
  pub n_slots : Option ℤ

pub record HomParams : Type 0 where
  pub n : ℕ
  pub full_q_list_precision : QList
  pub pt_scale : ℕ
  pub sk_hw : ℕ
  -- as given; only BV checks and reads it
  pub bv_gadget_bits : ℤ
  pub num_special_primes : ℕ
  pub decomposition_type : DecompositionType
  pub num_init_rows : Option ℕ
  pub real_boot : Bool
  pub slim_boot : Bool
  pub n_slots : ℕ
  pub ghs_keyswtich_scale_precision : Option (List ℕ)
  pub g_base_bits : ℕ
  -- set by the pipeline's `serialize`
  pub boot_params : Option BootstrappingParams

abbrev pub internal_n : HomParams → ℕ
internal_n p = p.n / 2

abbrev pub bootstrapping : HomParams → Bool
bootstrapping p = elim p.boot_params [ none ↦ false | some _ ↦ true ]

-- `x` as a number of at least `least`, or ValueError.
abbrev pub at_least : ℕ → ℤ → Result ℕ
at_least least (negsuc x) = err value_error
at_least least (pos x) = if ltb x least then err value_error else ok x

-- The test of `n` and its value.
abbrev pub power_of_two : ℤ → Result ℕ
power_of_two (negsuc x) = err value_error
power_of_two (pos x) = if is_power_of_two (pos x) then ok x else err value_error

abbrev pub is_bv : DecompositionArg → Bool
is_bv (member bv) = true
is_bv _ = false

abbrev pub is_hybrid : DecompositionArg → Bool
is_hybrid (member hybrid) = true
is_hybrid _ = false

-- The pair of `ghs_keyswtich_scale_precision` and `g_base_bits`.
unfoldable pub key_switch_bases : Bool → ℕ → ℤ → Result (Option (List ℕ) × ℕ)
key_switch_bases true num_special_primes bits = do
  raise_if (num_special_primes == 0) value_error
  ok (some (replicate num_special_primes 61), 61 * num_special_primes)
key_switch_bases false num_special_primes bits = do b ← at_least 1 bits; ok (none, b)

abbrev pub decomposition : DecompositionArg → Result DecompositionType
decomposition (member d) = ok d
decomposition unknown_text = err value_error
decomposition not_text = err type_error

unfoldable pub slots_of : Option ℤ → ℕ → Result ℕ
unfolding is_power_of_two
slots_of none slots = ok slots
slots_of (some n_slots) slots = do
  k ← power_of_two n_slots
  raise_if (ltb slots k) value_error
  ok k

abbrev pub init_rows : Option ℤ → ℕ → Result (Option ℕ)
init_rows none rows = ok none
init_rows (some k) rows = do r ← at_least 0 k; raise_if (ltb rows r) value_error; ok (some r)

-- `__post_init__`
unfoldable pub make : Args → Result HomParams
unfolding is_power_of_two key_switch_bases slots_of
make a = do
  n ← power_of_two a.n
  raise_if (not a.err_std_ok) value_error
  num_special_primes ← at_least 0 a.num_special_primes
  raise_if (is_bv a.decomposition_type && ltb 0 num_special_primes) value_error
  (ghs, g_base_bits) ←
      key_switch_bases (is_hybrid a.decomposition_type) num_special_primes a.bv_gadget_bits
  sk_hw ← at_least 0 a.sk_hw
  decomposition_type ← decomposition a.decomposition_type
  pt_scale ← at_least 1 a.pt_scale
  n_slots ← slots_of a.n_slots (n / 2)
  num_init_rows ← init_rows a.num_init_rows (length a.full_q_list_precision)
  ok (record {
    n = n;
    full_q_list_precision = a.full_q_list_precision;
    pt_scale = pt_scale;
    sk_hw = sk_hw;
    bv_gadget_bits = a.bv_gadget_bits;
    num_special_primes = num_special_primes;
    decomposition_type = decomposition_type;
    num_init_rows = num_init_rows;
    real_boot = a.real_boot;
    slim_boot = a.slim_boot;
    n_slots = n_slots;
    ghs_keyswtich_scale_precision = ghs;
    g_base_bits = g_base_bits;
    boot_params = none;
  })
