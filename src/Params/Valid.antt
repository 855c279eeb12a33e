-- ===== src/Params/Valid.antt =====
-- What the checks of HomParams let through.
use lattica_studio.Prelude.{
  ℕ, zero, suc, ◌*◌, ◌/◌, ◌≤◌, ◌≡◌, List, Option, none, some, true, ◌&&◌, not, length, arith, ltb,
  Bool-cases, inl, inr,
}
use lattica_studio.Prelude.Int.{ℤ, pos, negsuc}
use lattica_studio.Result.{Result, ok, err, value_error, raise_if, >>=-eq-ok, >>=-holds}
use lattica_studio.Params.{
  is_power_of_two, Args, HomParams, DecompositionArg, DecompositionType, unknown_text, not_text,
  member, bv, hybrid, at_least, power_of_two, is_bv, is_hybrid, key_switch_bases, decomposition,
  slots_of, init_rows, make,
}

-- The parameters agree with each other and with the arguments.
pub record IsValid (a : Args) (p : HomParams) : Type 0 where
  pub ring : is_power_of_two (pos p.n) ≡ true
  pub slots_fit : p.n_slots ≤ p.n / 2
  pub scale : 1 ≤ p.pt_scale
  pub bv_special : p.decomposition_type ≡ bv → p.num_special_primes ≡ 0
  pub hybrid_special :
      p.decomposition_type ≡ hybrid
      → (1 ≤ p.num_special_primes) × (p.g_base_bits ≡ 61 * p.num_special_primes)
  pub rows_fit : (k : ℕ) → p.num_init_rows ≡ some k → k ≤ length a.full_q_list_precision

pub power_of_two-ok : (x : ℤ) (n : ℕ) → power_of_two x ≡ ok n → is_power_of_two (pos n) ≡ true
power_of_two-ok (negsuc x) n h = cc
power_of_two-ok (pos x) n h = elim (Bool-cases (is_power_of_two (pos x))) [
  | inl e ↦ let h' : ok x ≡ ok n = rw e at h in cc
  | inr e ↦ let h' : err value_error ≡ ok n = rw e at h in cc
]

pub at_least-ok : (least : ℕ) (x : ℤ) (n : ℕ) → at_least least x ≡ ok n → least ≤ n
at_least-ok least (negsuc x) n h = cc
at_least-ok least (pos x) n h = ground arith

pub slots_of-ok : (o : Option ℤ) (slots k : ℕ) → slots_of o slots ≡ ok k → k ≤ slots
unfolding slots_of
slots_of-ok none slots k h = ground arith
slots_of-ok (some o) slots k h = let (j, e, h1) = >>=-eq-ok (power_of_two o) _ h in ground arith

init_rows-ok :
    (o : Option ℤ) (rows : ℕ) (r : Option ℕ)
    → init_rows o rows ≡ ok r
    → (k : ℕ) → r ≡ some k
    → k ≤ rows
init_rows-ok none rows r h k e = cc
init_rows-ok (some o) rows r h k e = let (j, e1, h1) = >>=-eq-ok (at_least 0 o) _ h in ground arith

pub bases-hybrid :
    (n : ℕ) (bits : ℤ) (r : Option (List ℕ)) (g : ℕ)
    → key_switch_bases true n bits ≡ ok (r, g)
    → (1 ≤ n) × (g ≡ 61 * n)
unfolding key_switch_bases
bases-hybrid zero bits r g h = ground arith
bases-hybrid (suc n) bits r g h = (omega arith, ground arith)

pub no_special :
    (arg : DecompositionArg) (d : DecompositionType) (k : ℕ)
    → decomposition arg ≡ ok d
    → raise_if (is_bv arg && ltb 0 k) value_error ≡ ok tt
    → d ≡ bv
    → k ≡ 0
no_special (member bv) d k e h is = ground arith
no_special (member hybrid) d k e h is = cc
no_special unknown_text d k e h is = cc
no_special not_text d k e h is = cc

pub special :
    (arg : DecompositionArg) (d : DecompositionType) (k : ℕ) (bits : ℤ)
    (bases : Option (List ℕ) × ℕ)
    → decomposition arg ≡ ok d
    → d ≡ hybrid
    → key_switch_bases (is_hybrid arg) k bits ≡ ok bases
    → (1 ≤ k) × (bases.1 ≡ 61 * k)
special (member bv) d k bits bases e is h = cc
special (member hybrid) d k bits bases e is h = bases-hybrid k bits bases.0 bases.1 h
special unknown_text d k bits bases e is h = cc
special not_text d k bits bases e is h = cc

-- What holds of the outcome of the checks.
abbrev Checked : Args → Result HomParams → Type 0
Checked a (ok p) = IsValid a p
Checked a (err e) = Unit

make-Checked : (a : Args) → Checked a (make a)
unfolding make
make-Checked a =
    >>=-holds (Checked a) (power_of_two a.n) _ (λ e. tt)
      λ n e0.
        >>=-holds (Checked a) (raise_if (not a.err_std_ok) value_error) _ (λ e. tt)
          λ _ e1.
            >>=-holds (Checked a) (at_least 0 a.num_special_primes) _ (λ e. tt)
              λ k e2.
                >>=-holds (Checked a) (raise_if (is_bv a.decomposition_type && ltb 0 k) value_error)
                  _ (λ e. tt)
                  λ _ e3.
                    >>=-holds (Checked a)
                      (key_switch_bases (is_hybrid a.decomposition_type) k a.bv_gadget_bits) _
                      (λ e. tt)
                      λ bases e4.
                        >>=-holds (Checked a) (at_least 0 a.sk_hw) _ (λ e. tt)
                          λ w e5.
                            >>=-holds (Checked a) (decomposition a.decomposition_type) _ (λ e. tt)
                              λ d e6.
                                >>=-holds (Checked a) (at_least 1 a.pt_scale) _ (λ e. tt)
                                  λ scale e7.
                                    >>=-holds (Checked a) (slots_of a.n_slots (n / 2)) _ (λ e. tt)
                                      λ s e8.
                                        >>=-holds (Checked a)
                                          (init_rows a.num_init_rows
                                            (length a.full_q_list_precision))
                                          _ (λ e. tt)
                                          λ r e9. record {
                                            ring = power_of_two-ok a.n n e0;
                                            slots_fit = slots_of-ok a.n_slots (n / 2) s e8;
                                            scale = at_least-ok 1 a.pt_scale scale e7;
                                            bv_special = no_special a.decomposition_type d k e6 e3;
                                            hybrid_special = λ e.
                                                special a.decomposition_type d k a.bv_gadget_bits
                                                  bases e6 e e4;
                                            rows_fit =
                                                init_rows-ok a.num_init_rows
                                                  (length a.full_q_list_precision) r e9;
                                          }

-- What HomParams accepts is consistent: the ring size is a power of two, the slots are at most half of
-- it, the scale is positive, BV has no special primes, hybrid has at least one and a gadget base of
-- 61 bits for each, and the initial rows are no more than the rows of the modulus chain.
pub make-IsValid : (a : Args) (p : HomParams) → make a ≡ ok p → IsValid a p
make-IsValid a p h = rw h at (make-Checked a)
