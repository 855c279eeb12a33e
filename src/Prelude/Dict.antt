-- ===== src/Prelude/Dict.antt =====
-- Dictionaries as association lists over keys with a Boolean equality.
use mathlib.Core.Path.{◌≡◌, refl}
use mathlib.Core.Logic.{◌↔◌}
use mathlib.Core.Bool.{Bool, true, false, ◌&&◌}
use mathlib.Core.Option.{Option, none, some}
use mathlib.Core.List.{List, [], ◌∷◌}
use native.Mathlib.Omega.{arith}
use Prim.Native.Nat.{ℕ}
use Prim.Native.String.{String}
use text.Mathlib.Text.{◌==◌ as str_eq}
use text.Mathlib.TextEquality.{eq_iff}
use lattica_studio.Prelude.Tests.{◌==◌, ==_iff, if◌then◌else◌}

pub record Eq (K : Type 0) : Type 0 where
  pub beq : K → K → Bool
  pub beq_iff : (a b : K) → (beq a b ≡ true) ↔ (a ≡ b)

instance abbrev pub string_eq : Eq String
string_eq = record { beq = str_eq; beq_iff = eq_iff }

instance abbrev pub number_eq : Eq ℕ
number_eq = record { beq = ◌==◌; beq_iff = ==_iff }

abbrev pub codes_eq : List ℕ → List ℕ → Bool
codes_eq [] [] = true
codes_eq (a ∷ as') (b ∷ bs) = (a == b) && codes_eq as' bs
codes_eq [] (b ∷ bs) = false
codes_eq (a ∷ as') [] = false

pub codes_eq_iff : (a b : List ℕ) → (codes_eq a b ≡ true) ↔ (a ≡ b)
codes_eq_iff [] [] = (λ _. refl, λ _. refl)
codes_eq_iff (a ∷ as') (b ∷ bs) =
    let (to, from) = codes_eq_iff as' bs in
    (λ h. ground (arith, to (ground arith)), λ h. ground (arith, from (ground arith)))
codes_eq_iff [] (b ∷ bs) = (λ h. cc, λ h. cc)
codes_eq_iff (a ∷ as') [] = (λ h. cc, λ h. cc)

instance abbrev pub list_eq : Eq (List ℕ)
list_eq = record { beq = codes_eq; beq_iff = codes_eq_iff }

module _ {K : Type 0} ⦃e : Eq K⦄ where
  pub beq_refl : (k : K) → e.beq k k ≡ true
  beq_refl k = (e.beq_iff k k).1 refl

  module _ {V : Type 0} where
    unfoldable pub get : K → List (K × V) → Option V
    get k [] = none
    get k ((j, v) ∷ m) = if e.beq j k then some v else get k m

    unfoldable pub insert : K → V → List (K × V) → List (K × V)
    insert k v [] = (k, v) ∷ []
    insert k v ((j, w) ∷ m) = if e.beq j k then (k, v) ∷ m else (j, w) ∷ insert k v m

    unfoldable pub remove : K → List (K × V) → List (K × V)
    remove k [] = []
    remove k ((j, w) ∷ m) = if e.beq j k then remove k m else (j, w) ∷ remove k m

    pub get-insert :
        (j k : K) (v : V) (m : List (K × V))
        → get j (insert k v m) ≡ (if e.beq k j then some v else get j m)
    unfolding get insert
    get-insert j k v [] = refl
    get-insert j k v ((i, w) ∷ m) =
        ground (arith, e.beq_iff k j, e.beq_iff i k, e.beq_iff i j, get-insert j k v m)

    pub get-remove :
        (j k : K) (m : List (K × V)) → get j (remove k m) ≡ (if e.beq k j then none else get j m)
    unfolding get remove
    get-remove j k [] = ground arith
    get-remove j k ((i, w) ∷ m) =
        ground (arith, e.beq_iff k j, e.beq_iff i k, e.beq_iff i j, get-remove j k m)
