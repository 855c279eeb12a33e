-- ===== src/Params/Again.antt =====
-- The checks of HomParams, run again on what they have let through.
use native.Mathlib.Nat.{mul-div_cancel_left}
use lattica_studio.Prelude.{
  ℕ, ◌/◌, ◌≡◌, refl, sym, ap, List, Option, none, some, true, false, ◌&&◌, arith, ltb,
}
use lattica_studio.Prelude.Int.{ℤ, pos, negsuc}
use lattica_studio.Result.{ok, value_error, raise_if}
use lattica_studio.Params.{
  DecompositionType, bv, hybrid, DecompositionArg, member, unknown_text, not_text, HomParams,
  is_power_of_two, power_of_two, at_least, is_bv, is_hybrid, key_switch_bases, decomposition,
  slots_of, init_rows,
}
use lattica_studio.Params.Valid.{power_of_two-ok, slots_of-ok, no_special, bases-hybrid}
use lattica_studio.Params.Dict.{gadget_bits, special_of, pos_of}

pub power_again : (x : ℤ) (n : ℕ) → power_of_two x ≡ ok n → power_of_two (pos n) ≡ ok n
power_again x n h = let e = power_of_two-ok x n h in rw e

pub at_least_again :
    (least : ℕ) (x : ℤ) (n : ℕ) → at_least least x ≡ ok n → at_least least (pos n) ≡ ok n
at_least_again least (negsuc x) n h = cc
at_least_again least (pos x) n h = ground arith

pub rows_again :
    (o : Option ℤ) (rows : ℕ) (r : Option ℕ)
    → init_rows o rows ≡ ok r
    → init_rows (pos_of r) rows ≡ ok r
rows_again none rows r h = ground arith
rows_again (some (negsuc k)) rows r h = cc
rows_again (some (pos k)) rows r h = ground arith

pub slots_again :
    (o : Option ℤ) (slots k : ℕ)
    → slots_of o slots ≡ ok k
    → is_power_of_two (pos k) ≡ true
    → slots_of (some (pos k)) slots ≡ ok k
unfolding slots_of
slots_again none slots k h e = let le = slots_of-ok none slots k h in rw e (ground arith)
slots_again (some o) slots k h e = let le = slots_of-ok (some o) slots k h in rw e (ground arith)

-- What becomes of `bv_gadget_bits`: BV keeps it, and HYBRID, which does not read it, has its default.
abbrev pub restored_bits : DecompositionType → ℤ → ℤ
restored_bits bv bits = bits
restored_bits hybrid bits = pos 4

abbrev pub restored : HomParams → HomParams
restored p = record p { bv_gadget_bits = restored_bits p.decomposition_type p.bv_gadget_bits }

-- What the decomposition and the key switch came to, they come to again.
pub record Again (d : DecompositionType) (k : ℕ) (bits : ℤ) (bases : Option (List ℕ) × ℕ)
    : Type 0 where
  pub same_bits : gadget_bits d bases.1 ≡ restored_bits d bits
  pub special_again : at_least 0 (special_of d bases.1) ≡ ok k
  pub bases_again : key_switch_bases (is_hybrid (member d)) k (gadget_bits d bases.1) ≡ ok bases
  pub check_again : raise_if (is_bv (member d) && ltb 0 k) value_error ≡ ok tt

bits_again :
    (k : ℕ) (bits : ℤ) (ghs : Option (List ℕ)) (g : ℕ)
    → key_switch_bases false k bits ≡ ok (ghs, g)
    → key_switch_bases false k (pos g) ≡ ok (ghs, g)
unfolding key_switch_bases
bits_again k (negsuc b) ghs g h = cc
bits_again k (pos b) ghs g h = ground arith

same_gadget_bits :
    (k : ℕ) (bits : ℤ) (ghs : Option (List ℕ)) (g : ℕ)
    → key_switch_bases false k bits ≡ ok (ghs, g)
    → pos g ≡ bits
unfolding key_switch_bases
same_gadget_bits k (negsuc b) ghs g h = cc
same_gadget_bits k (pos b) ghs g h = ground arith

pub again :
    (arg : DecompositionArg) (d : DecompositionType) (k : ℕ) (bits : ℤ)
    (bases : Option (List ℕ) × ℕ)
    → decomposition arg ≡ ok d
    → raise_if (is_bv arg && ltb 0 k) value_error ≡ ok tt
    → key_switch_bases (is_hybrid arg) k bits ≡ ok bases
    → Again d k bits bases
unfolding key_switch_bases
again (member bv) bv k bits (ghs, g) e c h = record {
  same_bits = same_gadget_bits k bits ghs g h;
  special_again = let none_left = no_special (member bv) bv k e c refl in ap ok (sym none_left);
  bases_again = bits_again k bits ghs g h;
  check_again = c;
}
again (member hybrid) hybrid k bits (ghs, g) e c h =
    let (one, sixty_one) = bases-hybrid k bits ghs g h in
    record {
      same_bits = refl;
      special_again =
          let k_again : g / 61 ≡ k = rw sixty_one (mul-div_cancel_left k (omega arith)) in
          rw k_again (ground arith);
      bases_again = h;
      check_again = refl;
    }
again (member bv) hybrid k bits bases e c h = ground arith
again (member hybrid) bv k bits bases e c h = ground arith
again unknown_text d k bits bases e c h = cc
again not_text d k bits bases e c h = cc
