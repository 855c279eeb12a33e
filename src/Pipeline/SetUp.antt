-- ===== src/Pipeline/SetUp.antt =====
-- The start of HomomorphicPipeline.serialize of
-- lattica_build_src/lattica_build/base_classes/hom_pipeline.py: the parameters and the chain of a pipeline.
use lattica_studio.Prelude.{
  ℕ, ◌^◌, List, [], ◌∷◌, ◌++◌, Option, none, some, Bool, true, false, ◌||◌,
}
use lattica_studio.Prelude.Int.{pos}
use lattica_studio.Prelude.Dict.{number_eq, get}
use lattica_studio.Result.{Result, ok, ◌>>=◌}
use lattica_studio.Bootstrap.{eval_mod_scale, for_slot_counts}
use lattica_studio.Primes.Pool.{Pools}
use lattica_studio.Params.{HomParams, Args, member, bv, make}
use lattica_studio.Chain.{ModulusChain, make_chain}
use lattica_studio.Pipeline.{OpType, bootstrap, ring_switch, other, HomOp, leaf, composite, Ops}

abbrev pub type_of : Option HomOp → List OpType
type_of (some (leaf t)) = t ∷ []
type_of (some (composite children)) = []
type_of none = []

-- OP_TYPE of each of the leaves.
abbrev pub types_of : Ops → List ℕ → List OpType
types_of ops [] = []
types_of ops (op ∷ leaves) = type_of (get op ops) ++ types_of ops leaves

abbrev pub is_bootstrap : OpType → Bool
is_bootstrap bootstrap = true
is_bootstrap (ring_switch log_n) = false
is_bootstrap (other number) = false

abbrev pub any_bootstrap : List OpType → Bool
any_bootstrap [] = false
any_bootstrap (t ∷ types) = is_bootstrap t || any_bootstrap types

-- `log_n_subring` of the first operator where it is a ring switch.
abbrev pub first_ring_switch : List OpType → Option ℕ
first_ring_switch [] = none
first_ring_switch (bootstrap ∷ types) = none
first_ring_switch (ring_switch log_n ∷ types) = some log_n
first_ring_switch (other number ∷ types) = none

-- The parameters of the ring that a switch leaves; the other arguments have their defaults.
abbrev pub ring_switch_args : HomParams → ℕ → Args
ring_switch_args p log_n = record {
  n = pos (2 ^ log_n);
  full_q_list_precision = (eval_mod_scale ∷ []) ∷ [];
  pt_scale = pos p.pt_scale;
  err_std_ok = true;
  sk_hw = pos 0;
  bv_gadget_bits = pos 4;
  num_special_primes = pos 0;
  decomposition_type = member bv;
  num_init_rows = none;
  real_boot = true;
  slim_boot = false;
  n_slots = some (pos p.n_slots);
}

-- `ring_switch_params`, and what becomes of the parameters.
unfoldable pub set_ring_switch : HomParams → Option ℕ → Result (Option HomParams × HomParams)
unfolding make
set_ring_switch p none = ok (none, p)
set_ring_switch p (some log_n) = do
  ring_params ← make (ring_switch_args p log_n)
  ok (some ring_params, record p { num_init_rows = some 0 })

-- `needs_boot`
abbrev pub needs_boot : List OpType → Option ℕ → Bool
needs_boot types (some log_n) = true
needs_boot types none = any_bootstrap types

-- `boot_params`, for the slot counts that `_bootstrap_slot_counts` traces.
unfoldable pub set_boot : HomParams → Bool → Result (List ℕ) → Result HomParams
unfolding for_slot_counts
set_boot p false slot_counts = ok (record p { boot_params = none })
set_boot p true slot_counts = do
  ns ← slot_counts
  b ← for_slot_counts p.real_boot p.slim_boot ns
  ok (record p { boot_params = some b })

-- `serialize` up to the chain: `ring_switch_params`, the parameters and the chain.
unfoldable pub set_up :
    Pools
    → HomParams
    → List OpType
    → Result (List ℕ)
    → Result (Option HomParams × HomParams × ModulusChain)
unfolding set_ring_switch set_boot make_chain
set_up pools p types slot_counts = do
  let switched = first_ring_switch types
  (ring_params, q) ← set_ring_switch p switched
  r ← set_boot q (needs_boot types switched) slot_counts
  chain ← make_chain pools r
  ok (ring_params, r, chain)
