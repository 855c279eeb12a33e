-- ===== src/Pipeline/Bootstraps.antt =====
-- Which pipelines need a bootstrap: `needs_boot` of HomomorphicPipeline.serialize of
-- lattica_build_src/lattica_build/base_classes/hom_pipeline.py, against the operators themselves.
use lattica_studio.Prelude.{
  ℕ, ◌≡◌, refl, ap, List, [], ◌∷◌, ◌++◌, none, true, false, ◌⊎◌, inl, inr, Bool-cases, arith,
}
use lattica_studio.Pipeline.{OpType, bootstrap, ring_switch, other}
use lattica_studio.Pipeline.SetUp.{first_ring_switch, any_bootstrap, needs_boot}

-- The first of the operators switches from the ring of `2 ^ log_n`.
abbrev pub StartsWithSwitch : List OpType → ℕ → Type 0
StartsWithSwitch types log_n = (rest : List OpType) × (types ≡ ring_switch log_n ∷ rest)

abbrev pub HasBootstrap : List OpType → Type 0
HasBootstrap types = (before after : List OpType) × (types ≡ before ++ bootstrap ∷ after)

-- Some operator is a bootstrap, or the first one is a ring switch.
abbrev pub Bootstraps : List OpType → Type 0
Bootstraps types = ((log_n : ℕ) × StartsWithSwitch types log_n) ⊎ HasBootstrap types

any_bootstrap-HasBootstrap : (types : List OpType) → any_bootstrap types ≡ true → HasBootstrap types
any_bootstrap-HasBootstrap [] h = cc
any_bootstrap-HasBootstrap (bootstrap ∷ types) h = ([], types, refl)
any_bootstrap-HasBootstrap (ring_switch log_n ∷ types) h =
    let (before, after, e) = any_bootstrap-HasBootstrap types h in
    (ring_switch log_n ∷ before, after, ap (λ ts. ring_switch log_n ∷ ts) e)
any_bootstrap-HasBootstrap (other number ∷ types) h =
    let (before, after, e) = any_bootstrap-HasBootstrap types h in
    (other number ∷ before, after, ap (λ ts. other number ∷ ts) e)

any_bootstrap-found :
    (before after : List OpType) → any_bootstrap (before ++ bootstrap ∷ after) ≡ true
any_bootstrap-found [] after = refl
any_bootstrap-found (t ∷ before) after = ground (arith, any_bootstrap-found before after)

needs_boot-Bootstraps :
    (types : List OpType) → needs_boot types (first_ring_switch types) ≡ true → Bootstraps types
needs_boot-Bootstraps [] h = cc
needs_boot-Bootstraps (bootstrap ∷ types) h = inr ([], types, refl)
needs_boot-Bootstraps (ring_switch log_n ∷ types) h = inl (log_n, (types, refl))
needs_boot-Bootstraps (other number ∷ types) h =
    inr (any_bootstrap-HasBootstrap (other number ∷ types) h)

needs_boot-of_any :
    (types : List OpType)
    → any_bootstrap types ≡ true
    → needs_boot types (first_ring_switch types) ≡ true
needs_boot-of_any [] h = h
needs_boot-of_any (bootstrap ∷ types) h = h
needs_boot-of_any (ring_switch log_n ∷ types) h = refl
needs_boot-of_any (other number ∷ types) h = h

pub needs_boot-true :
    (types : List OpType) → Bootstraps types → needs_boot types (first_ring_switch types) ≡ true
needs_boot-true types (inl (log_n, (rest, e))) = rw e refl
needs_boot-true types (inr (before, after, e)) =
    needs_boot-of_any types (rw e (any_bootstrap-found before after))

pub needs_boot-false :
    (types : List OpType)
    → (Bootstraps types → ⊥)
    → needs_boot types (first_ring_switch types) ≡ false
needs_boot-false types none_such = elim (Bool-cases (needs_boot types (first_ring_switch types))) [
  | inl e ↦ absurd (none_such (needs_boot-Bootstraps types e))
  | inr e ↦ e
]

pub first_ring_switch-none :
    (types : List OpType)
    → ((log_n : ℕ) → StartsWithSwitch types log_n → ⊥)
    → first_ring_switch types ≡ none
first_ring_switch-none [] h = refl
first_ring_switch-none (bootstrap ∷ types) h = refl
first_ring_switch-none (ring_switch log_n ∷ types) h = absurd (h log_n (types, refl))
first_ring_switch-none (other number ∷ types) h = refl
