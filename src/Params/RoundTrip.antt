-- ===== src/Params/RoundTrip.antt =====
-- `from_dict` undoes `to_dict`.
use lattica_studio.Prelude.{
  ℕ, ◌/◌, ◌≡◌, refl, List, Option, none, some, true, ◌&&◌, not, length, ltb,
}
use lattica_studio.Prelude.Int.{pos}
use lattica_studio.Result.{Result, ok, err, value_error, raise_if, >>=-holds}
use lattica_studio.Bootstrap.{BootstrappingParams, init}
use lattica_studio.Params.{
  DecompositionType, Args, HomParams, bootstrapping, is_power_of_two, power_of_two, at_least, is_bv,
  is_hybrid, key_switch_bases, decomposition, slots_of, init_rows, make,
}
use lattica_studio.Params.Again.{
  restored, Again, again, power_again, at_least_again, rows_again, slots_again,
}
use lattica_studio.Params.Dict.{
  to_dict, from_dict, args_of, pos_of, boot_of, dft_levels_of, cts_scale_of,
}

module _ (order : Option (List ℕ)) where
  -- The constructor accepts again what it has made, with a number of slots that is a power of two.
  abbrev MadeAgain : Result HomParams → Type 0
  MadeAgain (err e) = Unit
  MadeAgain (ok p) =
      is_power_of_two (pos p.n_slots) ≡ true
      → (make (args_of (to_dict p order)) ≡ ok (restored p)) × (p.boot_params ≡ none)

  made_again :
      (a : Args) (n k w scale s : ℕ) (d : DecompositionType) (r : Option ℕ)
      (bases : Option (List ℕ) × ℕ)
      → power_of_two (pos n) ≡ ok n
      → Again d k a.bv_gadget_bits bases
      → at_least 0 (pos w) ≡ ok w
      → at_least 1 (pos scale) ≡ ok scale
      → slots_of (some (pos s)) (n / 2) ≡ ok s
      → init_rows (pos_of r) (length a.full_q_list_precision) ≡ ok r
      → let p : HomParams = record {
        n = n;
        full_q_list_precision = a.full_q_list_precision;
        pt_scale = scale;
        sk_hw = w;
        bv_gadget_bits = a.bv_gadget_bits;
        num_special_primes = k;
        decomposition_type = d;
        num_init_rows = r;
        real_boot = a.real_boot;
        slim_boot = a.slim_boot;
        n_slots = s;
        ghs_keyswtich_scale_precision = bases.0;
        g_base_bits = bases.1;
        boot_params = none;
      } in
        make (args_of (to_dict p order)) ≡ ok (restored p)
  unfolding make to_dict
  made_again a n k w scale s d r bases e0 ag e5 e7 e8 e9 =
      let e2 = ag.special_again in
      let bits = ag.same_bits in
      let e3 = ag.check_again in
      let e4 = ag.bases_again in rw (e0, e2, e3, e4, e5, e7, e8, e9, bits)

  make-MadeAgain : (a : Args) → MadeAgain (make a)
  unfolding make
  make-MadeAgain a =
      >>=-holds MadeAgain (power_of_two a.n) _ (λ e. tt)
        λ n e0.
          >>=-holds MadeAgain (raise_if (not a.err_std_ok) value_error) _ (λ e. tt)
            λ _ e1.
              >>=-holds MadeAgain (at_least 0 a.num_special_primes) _ (λ e. tt)
                λ k e2.
                  >>=-holds MadeAgain (raise_if (is_bv a.decomposition_type && ltb 0 k) value_error)
                    _ (λ e. tt)
                    λ _ e3.
                      >>=-holds MadeAgain
                        (key_switch_bases (is_hybrid a.decomposition_type) k a.bv_gadget_bits) _
                        (λ e. tt)
                        λ bases e4.
                          >>=-holds MadeAgain (at_least 0 a.sk_hw) _ (λ e. tt)
                            λ w e5.
                              >>=-holds MadeAgain (decomposition a.decomposition_type) _ (λ e. tt)
                                λ d e6.
                                  >>=-holds MadeAgain (at_least 1 a.pt_scale) _ (λ e. tt)
                                    λ scale e7.
                                      >>=-holds MadeAgain (slots_of a.n_slots (n / 2)) _ (λ e. tt)
                                        λ s e8.
                                          >>=-holds MadeAgain
                                            (init_rows a.num_init_rows
                                              (length a.full_q_list_precision))
                                            _ (λ e. tt)
                                            λ r e9 power. (
                                              made_again a n k w scale s d r bases
                                                  (power_again a.n n e0)
                                                  (again a.decomposition_type d k a.bv_gadget_bits
                                                    bases e6 e3 e4)
                                                  (at_least_again 0 a.sk_hw w e5)
                                                  (at_least_again 1 a.pt_scale scale e7)
                                                  (slots_again a.n_slots (n / 2) s e8 power)
                                                  (rows_again a.num_init_rows
                                                    (length a.full_q_list_precision) r e9),
                                              refl,
                                            )

-- The bootstrap of some parameters, if any, is one that `BootstrappingParams` has made.
abbrev pub IsBoot : HomParams → Option BootstrappingParams → Type 0
IsBoot p none = Unit
IsBoot p (some b) = init p.real_boot p.slim_boot b.dft_levels b.cts_scale ≡ ok b

boot_again :
    (p : HomParams) (boot : Option BootstrappingParams)
    → IsBoot p boot
    → boot_of
        (bootstrapping (record p { boot_params = boot }))
        p.real_boot
        p.slim_boot
        (dft_levels_of boot)
        (cts_scale_of boot)
      ≡ ok boot
boot_again p none h = refl
boot_again p (some b) h = rw h

-- Parameters that the constructor has made, with a number of slots that is a power of two, with no
-- ring-switch parameters, with or without a bootstrap that `BootstrappingParams` has made for them, and
-- with any consumption order: `from_dict` of their `to_dict` returns the same order and the same
-- parameters, except that `bv_gadget_bits`, which BV keeps, is 4 under HYBRID, whatever it was.
pub from_dict-to_dict :
    (a : Args) (p : HomParams) (boot : Option BootstrappingParams) (order : Option (List ℕ))
    → make a ≡ ok p
    → is_power_of_two (pos p.n_slots) ≡ true
    → IsBoot p boot
    → from_dict (to_dict (record p { boot_params = boot }) order)
      ≡ ok (record (restored p) { boot_params = boot }, order)
unfolding from_dict to_dict
from_dict-to_dict a p boot order made power b =
    let (again_p, no_boot) = (rw made at (make-MadeAgain order a)) power in
    let b_again = boot_again p boot b in rw (again_p, b_again)
