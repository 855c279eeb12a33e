-- ===== src/Pipeline/BootRows.antt =====
-- The rows of the chain that HomomorphicPipeline.serialize of
-- lattica_build_src/lattica_build/base_classes/hom_pipeline.py makes, with and without a bootstrap.
use lattica_studio.Prelude.{
  ℕ, ◌+◌, ◌-◌, ◌≡◌, refl, drop, List, [], ◌∷◌, none, some, inl, inr, length, Bool-cases, arith,
  if◌then◌else◌,
}
use lattica_studio.Result.{ok}
use lattica_studio.Bootstrap.{BootstrappingParams}
use lattica_studio.Primes.Pool.{Pools}
use lattica_studio.Params.{HomParams}
use lattica_studio.Chain.{
  ModulusChain, pipeline, boot_cts, boot_eval, boot_stc, boot_base, rows_of, range_from,
  section_rows_from, mod_chain_sections, make_chain, get_init_rows, last_rows,
}
use lattica_studio.Chain.Sections.{make_chain-IsMade}

-- Without a bootstrap: the chain has no bootstrap rows, and fresh ciphertexts hold all the pipeline's.
pub record IsPlain (q : HomParams) (chain : ModulusChain) : Type 0 where
  pub no_boot : q.boot_params ≡ none
  pub no_cts : rows_of boot_cts chain.section_rows ≡ none
  pub no_eval : rows_of boot_eval chain.section_rows ≡ none
  pub no_stc : rows_of boot_stc chain.section_rows ≡ none
  pub no_base : rows_of boot_base chain.section_rows ≡ none
  pub fresh_rows : get_init_rows chain q ≡ ok (range_from 0 (length q.full_q_list_precision))

-- The rows after the pipeline's: those of CtS, of EvalMod and of StC, and the base.
pub record HasRows (q : HomParams) (b : BootstrappingParams) (chain : ModulusChain) : Type 0 where
  pub cts_start : ℕ
  pub eval_start : ℕ
  pub stc_start : ℕ
  pub base : ℕ
  pub after_pipeline : cts_start ≡ length q.full_q_list_precision
  pub after_cts : eval_start ≡ cts_start + length b.cts_q_list_precision
  pub after_eval : stc_start ≡ eval_start + length b.eval_mod_q_list_precision
  pub after_stc : base ≡ stc_start + length b.stc_q_list_precision
  pub cts_rows :
      rows_of boot_cts chain.section_rows
      ≡ some (range_from cts_start (length b.cts_q_list_precision))
  pub eval_rows :
      rows_of boot_eval chain.section_rows
      ≡ some (range_from eval_start (length b.eval_mod_q_list_precision))
  pub stc_rows :
      rows_of boot_stc chain.section_rows
      ≡ some (range_from stc_start (length b.stc_q_list_precision))
  pub base_row : rows_of boot_base chain.section_rows ≡ some (base ∷ [])
  -- A slim bootstrap starts with StC, for which a fresh ciphertext needs its rows.
  pub fresh_after_switch :
      q.num_init_rows ≡ some 0
      → get_init_rows chain q
        ≡ ok (
            base
            ∷ (if b.slim_boot then range_from stc_start (length b.stc_q_list_precision) else []))

pub make_chain-IsPlain :
    (pools : Pools) (q : HomParams) (chain : ModulusChain)
    → q.boot_params ≡ none
    → make_chain pools q ≡ ok chain
    → IsPlain q chain
unfolding get_init_rows rows_of section_rows_from mod_chain_sections
make_chain-IsPlain pools q chain e h =
    let rows = (make_chain-IsMade pools q chain h).section_rows in
    record {
      no_boot = e;
      no_cts = rw (rows, e) refl;
      no_eval = rw (rows, e) refl;
      no_stc = rw (rows, e) refl;
      no_base = rw (rows, e) refl;
      fresh_rows = rw (rows, e) refl;
    }

drop-length : (xs : List ℕ) → drop (length xs) xs ≡ []
drop-length [] = refl
drop-length (x ∷ xs) = drop-length xs

no_last_rows : (xs : List ℕ) → last_rows 0 xs ≡ []
no_last_rows xs = let whole : length xs - 0 ≡ length xs = omega arith in rw whole (drop-length xs)

fresh-switched :
    (c : ModulusChain) (q : HomParams) (b : BootstrappingParams) {rows stc : List ℕ} {base : ℕ}
    → q.boot_params ≡ some b
    → rows_of pipeline c.section_rows ≡ some rows
    → rows_of boot_base c.section_rows ≡ some (base ∷ [])
    → rows_of boot_stc c.section_rows ≡ some stc
    → q.num_init_rows ≡ some 0
    → get_init_rows c q ≡ ok (base ∷ (if b.slim_boot then stc else []))
unfolding get_init_rows
fresh-switched c q b {rows} {stc} {base} boot all base_row stc_rows none_kept =
    elim (Bool-cases b.slim_boot) [
      | inl slim ↦ ground (arith, no_last_rows rows)
      | inr slim ↦ ground (arith, no_last_rows rows)
    ]

pub make_chain-HasRows :
    (pools : Pools) (q : HomParams) (b : BootstrappingParams) (chain : ModulusChain)
    → q.boot_params ≡ some b
    → make_chain pools q ≡ ok chain
    → HasRows q b chain
unfolding get_init_rows rows_of section_rows_from mod_chain_sections
make_chain-HasRows pools q b chain e h =
    let rows = (make_chain-IsMade pools q chain h).section_rows in
    record {
      cts_start = 0 + length q.full_q_list_precision;
      eval_start = 0 + length q.full_q_list_precision + length b.cts_q_list_precision;
      stc_start =
          0
          + length q.full_q_list_precision
          + length b.cts_q_list_precision
          + length b.eval_mod_q_list_precision;
      base =
          0
          + length q.full_q_list_precision
          + length b.cts_q_list_precision
          + length b.eval_mod_q_list_precision
          + length b.stc_q_list_precision;
      after_pipeline = omega arith;
      after_cts = refl;
      after_eval = refl;
      after_stc = refl;
      cts_rows = rw (rows, e) refl;
      eval_rows = rw (rows, e) refl;
      stc_rows = rw (rows, e) refl;
      base_row = rw (rows, e) refl;
      fresh_after_switch =
          fresh-switched chain q b {rows = range_from 0 (length q.full_q_list_precision)} e
            (rw rows refl) (rw (rows, e) refl) (rw (rows, e) refl);
    }
