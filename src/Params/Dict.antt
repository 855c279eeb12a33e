-- ===== src/Params/Dict.antt =====
-- `to_dict` and `from_dict` of HomParams, where `ring_switch_params` is None; `err_std`, a float that both
-- sides pass on unchanged, has no field.
use lattica_studio.Prelude.{ℕ, ◌/◌, List, [], Option, none, some, Bool, true, false}
use lattica_studio.Prelude.Int.{ℤ, pos}
use lattica_studio.Result.{Result, ok, value_error, or_raise, ◌>>=◌}
use lattica_studio.Primes.{QList}
use lattica_studio.Bootstrap.{BootstrappingParams, init}
use lattica_studio.Params.{
  DecompositionType, bv, hybrid, member, Args, HomParams, bootstrapping, make,
}

pub record ParamsDict : Type 0 where
  pub full_q_list_precision : QList
  pub n : ℕ
  pub sk_hw : ℕ
  pub g_base_bits : ℕ
  pub ghs_keyswtich_scale_precision : List ℕ
  pub decomposition_type : DecompositionType
  pub pt_scale : ℕ
  pub bootstrapping : Bool
  pub num_init_rows : Option ℕ
  pub real_boot : Bool
  pub slim_boot : Bool
  pub n_slots : ℕ
  pub consumption_order : Option (List ℕ)
  pub boot_dft_levels : Option ℕ
  pub boot_cts_scale : Option ℕ

abbrev pub dft_levels_of : Option BootstrappingParams → Option ℕ
dft_levels_of none = none
dft_levels_of (some b) = some b.dft_levels

abbrev pub cts_scale_of : Option BootstrappingParams → Option ℕ
cts_scale_of none = none
cts_scale_of (some b) = some b.cts_scale

abbrev pub or_empty : Option (List ℕ) → List ℕ
or_empty none = []
or_empty (some xs) = xs

-- HomParams.to_dict; the consumption order stands beside the parameters.
unfoldable pub to_dict : HomParams → Option (List ℕ) → ParamsDict
to_dict p order = record {
  full_q_list_precision = p.full_q_list_precision;
  n = p.n;
  sk_hw = p.sk_hw;
  g_base_bits = p.g_base_bits;
  ghs_keyswtich_scale_precision = or_empty p.ghs_keyswtich_scale_precision;
  decomposition_type = p.decomposition_type;
  pt_scale = p.pt_scale;
  bootstrapping = bootstrapping p;
  num_init_rows = p.num_init_rows;
  real_boot = p.real_boot;
  slim_boot = p.slim_boot;
  n_slots = p.n_slots;
  consumption_order = order;
  boot_dft_levels = dft_levels_of p.boot_params;
  boot_cts_scale = cts_scale_of p.boot_params;
}

-- `bv_gadget_bits`: for HYBRID the dict has no entry, and the constructor takes its default.
abbrev pub gadget_bits : DecompositionType → ℕ → ℤ
gadget_bits bv g = pos g
gadget_bits hybrid g = pos 4

abbrev pub special_of : DecompositionType → ℕ → ℤ
special_of bv g = pos 0
special_of hybrid g = pos (g / 61)

abbrev pub pos_of : Option ℕ → Option ℤ
pos_of none = none
pos_of (some k) = some (pos k)

-- The keyword arguments that `from_dict` calls the constructor with.
abbrev pub args_of : ParamsDict → Args
args_of d = record {
  n = pos d.n;
  full_q_list_precision = d.full_q_list_precision;
  pt_scale = pos d.pt_scale;
  err_std_ok = true;
  sk_hw = pos d.sk_hw;
  bv_gadget_bits = gadget_bits d.decomposition_type d.g_base_bits;
  num_special_primes = special_of d.decomposition_type d.g_base_bits;
  decomposition_type = member d.decomposition_type;
  num_init_rows = pos_of d.num_init_rows;
  real_boot = d.real_boot;
  slim_boot = d.slim_boot;
  n_slots = some (pos d.n_slots);
}

-- The chain of the bootstrap, built again.
abbrev pub boot_of : Bool → Bool → Bool → Option ℕ → Option ℕ → Result (Option BootstrappingParams)
boot_of false real slim dft cts = ok none
boot_of true real slim dft cts = do
  dft_levels ← or_raise dft value_error
  cts_scale ← or_raise cts value_error
  b ← init real slim dft_levels cts_scale
  ok (some b)

-- HomParams.from_dict
unfoldable pub from_dict : ParamsDict → Result (HomParams × Option (List ℕ))
from_dict d = do
  params ← make (args_of d)
  boot ← boot_of d.bootstrapping d.real_boot d.slim_boot d.boot_dft_levels d.boot_cts_scale
  ok (record params { boot_params = boot }, d.consumption_order)
