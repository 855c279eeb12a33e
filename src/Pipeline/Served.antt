-- ===== src/Pipeline/Served.antt =====
-- The chain that HomomorphicPipeline.serialize of
-- lattica_build_src/lattica_build/base_classes/hom_pipeline.py makes for a pipeline.
use lattica_studio.Prelude.{
  ℕ, ◌-◌, ◌≤◌, ◌≡◌, ◌^◌, ◌/◌, refl, sym, ◌∙◌, ap, Bool, List, Option, none, some, true, false,
  length, arith,
}
use lattica_studio.Bootstrap.Table.{sum}
use lattica_studio.Prelude.Count.{IsIn}
use lattica_studio.Prelude.Int.{pos}
use lattica_studio.Result.{Result, ok, >>=-eq-ok}
use lattica_studio.Bootstrap.{BootstrappingParams, for_slot_counts, dft_split}
use lattica_studio.Bootstrap.BitLength.{bit_length}
use lattica_studio.Bootstrap.Split.{for_slot_counts_fits}
use lattica_studio.Primes.Pool.{Pools}
use lattica_studio.Params.{HomParams, bv, make, power_of_two, at_least, key_switch_bases, slots_of}
use lattica_studio.Params.Valid.{slots_of-ok}
use lattica_studio.Chain.{ModulusChain, make_chain}
use lattica_studio.Pipeline.{OpType}
use lattica_studio.Pipeline.Bootstraps.{
  StartsWithSwitch, Bootstraps, needs_boot-true, needs_boot-false, first_ring_switch-none,
}
use lattica_studio.Pipeline.BootRows.{IsPlain, HasRows, make_chain-IsPlain, make_chain-HasRows}
use lattica_studio.Pipeline.SetUp.{
  first_ring_switch, needs_boot, ring_switch_args, set_ring_switch, set_boot, set_up,
}

-- The bootstrap of `n` slots has its DFT split, in no more levels than the chain's.
abbrev pub IsServed : BootstrappingParams → ℕ → Type 0
IsServed b n =
    (split : List ℕ) × (dft_split b n ≡ ok split)
    × (sum split ≡ bit_length n - 1)
    × (length split ≤ b.dft_levels)

-- With one: the chain has the bootstrap's rows, and serves every slot count that the trace has found.
pub record IsBooted (slot_counts : Result (List ℕ)) (q : HomParams) (chain : ModulusChain)
    : Type 0 where
  pub b : BootstrappingParams
  pub booted : q.boot_params ≡ some b
  pub ns : List ℕ
  pub traced : slot_counts ≡ ok ns
  pub served : (n : ℕ) → IsIn n ns → IsServed b n
  pub has_rows : HasRows q b chain

-- The parameters of the ring of `2 ^ log_n` that a switch leaves, for a pipeline of parameters `p`.
pub record IsRing (p ring : HomParams) (log_n : ℕ) : Type 0 where
  pub size : ring.n ≡ 2 ^ log_n
  pub slots : ring.n_slots ≡ p.n_slots
  pub fit : ring.n_slots ≤ ring.n / 2
  pub scale : ring.pt_scale ≡ p.pt_scale
  pub gadget : (ring.decomposition_type ≡ bv) × (ring.g_base_bits ≡ 4)

-- After a ring switch: the parameters of the ring it leaves, and no pipeline row in fresh ciphertexts.
pub record IsSwitched (p q : HomParams) (ring_params : Option HomParams) (log_n : ℕ) : Type 0 where
  pub ring : HomParams
  pub left : ring_params ≡ some ring
  pub is_ring : IsRing p ring log_n
  pub no_rows : q.num_init_rows ≡ some 0

set_boot-false :
    (p q : HomParams) (slot_counts : Result (List ℕ))
    → set_boot p false slot_counts ≡ ok q
    → q.boot_params ≡ none
unfolding set_boot
set_boot-false p q slot_counts h = ground arith

set_boot-IsBooted :
    (pools : Pools) (p q : HomParams) (slot_counts : Result (List ℕ)) (chain : ModulusChain)
    → set_boot p true slot_counts ≡ ok q
    → make_chain pools q ≡ ok chain
    → IsBooted slot_counts q chain
unfolding set_boot
set_boot-IsBooted pools p q slot_counts chain h made =
    let (ns, e, h1) = >>=-eq-ok slot_counts _ h in
    let (b, e2, h2) = >>=-eq-ok (for_slot_counts p.real_boot p.slim_boot ns) _ h1 in
    let booted : q.boot_params ≡ some b = ground arith in
    record {
      b = b;
      booted = booted;
      ns = ns;
      traced = e;
      served = λ n i. for_slot_counts_fits p.real_boot p.slim_boot ns b n e2 i;
      has_rows = make_chain-HasRows pools q b chain booted made;
    }

set_boot-rows :
    (p q : HomParams) (needs : Bool) (slot_counts : Result (List ℕ))
    → set_boot p needs slot_counts ≡ ok q
    → q.num_init_rows ≡ p.num_init_rows
unfolding set_boot
set_boot-rows p q false slot_counts h = ground arith
set_boot-rows p q true slot_counts h =
    let (ns, e, h1) = >>=-eq-ok slot_counts _ h in
    let (b, e2, h2) = >>=-eq-ok (for_slot_counts p.real_boot p.slim_boot ns) _ h1 in ground arith

ok-injective : {A : Type 0} {a b : A} → ok a ≡ ok b → a ≡ b
ok-injective h = cc

power_of_two-same : (m n : ℕ) → power_of_two (pos m) ≡ ok n → n ≡ m
power_of_two-same m n h = ground arith

at_least-same : (least m n : ℕ) → at_least least (pos m) ≡ ok n → n ≡ m
at_least-same least m n h = ground arith

slots_of-same : (m slots n : ℕ) → slots_of (some (pos m)) slots ≡ ok n → n ≡ m
unfolding slots_of
slots_of-same m slots n h =
    let (k, e, h1) = >>=-eq-ok (power_of_two (pos m)) _ h in
    let same = power_of_two-same m k e in ground arith

make-IsRing :
    (p ring : HomParams) (log_n : ℕ)
    → make (ring_switch_args p log_n) ≡ ok ring
    → IsRing p ring log_n
unfolding make key_switch_bases
make-IsRing p ring log_n h =
    let (n, e, h1) = >>=-eq-ok (power_of_two (pos (2 ^ log_n))) _ h in
    let (scale, e2, h2) = >>=-eq-ok (at_least 1 (pos p.pt_scale)) _ h1 in
    let (slots, e3, h3) = >>=-eq-ok (slots_of (some (pos p.n_slots)) (n / 2)) _ h2 in
    let n_same = power_of_two-same (2 ^ log_n) n e in
    let scale_same = at_least-same 1 p.pt_scale scale e2 in
    let slots_same = slots_of-same p.n_slots (n / 2) slots e3 in
    let fits = slots_of-ok (some (pos p.n_slots)) (n / 2) slots e3 in
    record {
      size = (ap (λ r. r.n) (sym (ok-injective h3))) ∙ n_same;
      slots = (ap (λ r. r.n_slots) (sym (ok-injective h3))) ∙ slots_same;
      fit = rw (← ok-injective h3) fits;
      scale = (ap (λ r. r.pt_scale) (sym (ok-injective h3))) ∙ scale_same;
      gadget = rw (← ok-injective h3) (refl, refl);
    }

-- What `set_ring_switch` has made of the parameters.
set_ring_switch-IsSwitched :
    (p p1 q : HomParams) (log_n : ℕ) (ring_params : Option HomParams)
    → set_ring_switch p (some log_n) ≡ ok (ring_params, p1)
    → q.num_init_rows ≡ p1.num_init_rows
    → IsSwitched p q ring_params log_n
unfolding set_ring_switch
set_ring_switch-IsSwitched p p1 q log_n ring_params h kept =
    let (ring, e, h1) = >>=-eq-ok (make (ring_switch_args p log_n)) _ h in
    let same : some ring ≡ ring_params = cc in
    let rows : record p { num_init_rows = some 0 } ≡ p1 = cc in
    record {
      ring = ring;
      left = sym same;
      is_ring = make-IsRing p ring log_n e;
      no_rows = kept ∙ ap (λ r. r.num_init_rows) (sym rows);
    }

set_ring_switch-kept :
    (p p1 q : HomParams) (ring_params : Option HomParams)
    → set_ring_switch p none ≡ ok (ring_params, p1)
    → q.num_init_rows ≡ p1.num_init_rows
    → (ring_params ≡ none) × (q.num_init_rows ≡ p.num_init_rows)
unfolding set_ring_switch
set_ring_switch-kept p p1 q ring_params h kept =
    let rows : p ≡ p1 = cc in (cc, kept ∙ ap (λ r. r.num_init_rows) (sym rows))

-- A set-up that returns, in terms of the operators of the pipeline. Where none of them is a bootstrap and
-- the first is no ring switch, the chain has no bootstrap rows, and fresh ciphertexts hold all the
-- pipeline rows. Otherwise the chain has, after the pipeline rows, those of CtS, EvalMod, StC and the base,
-- and its bootstrap serves each slot count of the trace. Where the first operator is a ring switch, the
-- parameters of the ring that it leaves have that ring's size, the pipeline's slots, which fit, its scale,
-- and the BV decomposition with 4 bits; and no pipeline row is kept for fresh ciphertexts, which hold the
-- base and, for a slim bootstrap, the rows of StC. Where it is none, there are no such parameters, and the
-- number of rows for fresh ciphertexts stays.
pub set_up_lem :
    (pools : Pools) (p q : HomParams) (types : List OpType) (slot_counts : Result (List ℕ))
    (ring_params : Option HomParams) (chain : ModulusChain)
    → set_up pools p types slot_counts ≡ ok (ring_params, q, chain)
    → ((Bootstraps types → ⊥) → IsPlain q chain)
      × (Bootstraps types → IsBooted slot_counts q chain)
      × ((log_n : ℕ) → StartsWithSwitch types log_n → IsSwitched p q ring_params log_n)
      × (((log_n : ℕ) → StartsWithSwitch types log_n → ⊥)
          → (ring_params ≡ none) × (q.num_init_rows ≡ p.num_init_rows))
unfolding set_up
set_up_lem pools p q types slot_counts ring_params chain h =
    let ((ring, p1), e, h1) = >>=-eq-ok (set_ring_switch p (first_ring_switch types)) _ h in
    let needs = needs_boot types (first_ring_switch types) in
    let (q', e2, h2) = >>=-eq-ok (set_boot p1 needs slot_counts) _ h1 in
    let (c, e3, h3) = >>=-eq-ok (make_chain pools q') _ h2 in
    let same_q : q' ≡ q = cc in
    let same_ring : ring ≡ ring_params = cc in
    let same_chain : c ≡ chain = cc in
    (
      λ none_such.
          let no = needs_boot-false types none_such in
          rw (same_q, same_chain) at
            (make_chain-IsPlain pools q' c (set_boot-false p1 q' slot_counts (rw no at e2)) e3),
      λ some_such.
          let yes' = needs_boot-true types some_such in
          rw (same_q, same_chain) at
            (set_boot-IsBooted pools p1 q' slot_counts c (rw yes' at e2) e3),
      λ log_n (rest, starts).
          let switched : first_ring_switch types ≡ some log_n = rw starts refl in
          rw (same_q, same_ring) at
            (set_ring_switch-IsSwitched p p1 q' log_n ring (rw switched at e)
              (set_boot-rows p1 q' needs slot_counts e2)),
      λ none_such.
          let not_switched = first_ring_switch-none types none_such in
          rw (same_q, same_ring) at
            (set_ring_switch-kept p p1 q' ring (rw not_switched at e)
              (set_boot-rows p1 q' needs slot_counts e2)),
    )
