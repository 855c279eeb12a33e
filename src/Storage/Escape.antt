-- ===== src/Storage/Escape.antt =====
-- A component of `encode_path_component` of lattica_query_src/lattica_query/storage/_files.py is read back.
use lattica_studio.Prelude.{
  ℕ, ◌+◌, ◌-◌, ◌*◌, ◌/◌, ◌%◌, ◌<◌, ◌≡◌, refl, ap, sym, ◌∙◌, List, [], ◌∷◌, ◌++◌, true, false, ◌&&◌,
  leb, ◌==◌, if◌then◌else◌, Bool-cases, inl, inr, arith, ==_iff,
}
use lattica_studio.Storage.Paths.{is_kept, hex_digit, quote_byte, quote, escape_dots}

-- Reading a component back: in between two bytes, after a `%`, and after its first digit.
pub data Mode : Type 0 where
  plain : Mode
  percent : Mode
  half : ℕ → Mode

unfoldable pub digit_value : ℕ → ℕ
digit_value c = if leb c b'9' then c - b'0' else c - 55

unfoldable pub unquote : Mode → List ℕ → List ℕ
unfolding digit_value
unquote mode [] = []
unquote plain (c ∷ cs) =
    let rest = unquote plain cs in
    let digits = unquote percent cs in if c == b'%' then digits else c ∷ rest
unquote percent (c ∷ cs) = unquote (half (digit_value c)) cs
unquote (half high) (c ∷ cs) = (16 * high + digit_value c) ∷ unquote plain cs

abbrev pub AreBytes : List ℕ → Type 0
AreBytes [] = Unit
AreBytes (b ∷ bytes) = (b < 256) × AreBytes bytes

digit_value-hex_digit : (d : ℕ) → d < 16 → digit_value (hex_digit d) ≡ d
unfolding digit_value hex_digit
digit_value-hex_digit d h = ground arith

pub high_digit : (b : ℕ) → b < 256 → b / 16 < 16
high_digit b h = omega arith

pub low_digit : (b : ℕ) → b % 16 < 16
low_digit b = omega arith

pub kept-percent : (b : ℕ) → is_kept b ≡ true → (b == b'%') ≡ false
unfolding is_kept
kept-percent b h = elim (Bool-cases (b == b'%')) [
  | inl e ↦
      let same : b ≡ 37 = (==_iff b 37).0 e in
      let kept : is_kept 37 ≡ true = sym (ap is_kept same) ∙ h in cc
  | inr e ↦ e
]

hex_value :
    (b : ℕ) → b < 256 → 16 * digit_value (hex_digit (b / 16)) + digit_value (hex_digit (b % 16)) ≡ b
hex_value b h =
    rw
      (
        digit_value-hex_digit (b / 16) (high_digit b h),
        digit_value-hex_digit (b % 16) (low_digit b),
      )
      (omega arith)

unquote-quote_byte :
    (b : ℕ) (rest : List ℕ)
    → b < 256
    → unquote plain (quote_byte b ++ rest) ≡ b ∷ unquote plain rest
unfolding unquote quote_byte
unquote-quote_byte b rest h = elim (Bool-cases (is_kept b)) [
  | inl e ↦ rw (e, kept-percent b e) refl
  | inr e ↦ rw e (ap (λ v. v ∷ unquote plain rest) (hex_value b h))
]

pub unquote-quote : (bytes : List ℕ) → AreBytes bytes → unquote plain (quote bytes) ≡ bytes
unfolding unquote quote
unquote-quote [] h = refl
unquote-quote (b ∷ bytes) (first, rest) =
    unquote-quote_byte b (quote bytes) first ∙ ap (λ cs. b ∷ cs) (unquote-quote bytes rest)

pub unquote-escape_dots :
    (component : List ℕ) → unquote plain (escape_dots component) ≡ unquote plain component
unfolding unquote escape_dots
unquote-escape_dots [] = refl
unquote-escape_dots (c ∷ []) = elim (Bool-cases (c == b'.')) [
  | inl e ↦ let same : c ≡ 46 = (==_iff c 46).0 e in rw same refl
  | inr e ↦ rw e refl
]
unquote-escape_dots (c ∷ d ∷ []) = elim (Bool-cases (c == b'.' && d == b'.')) [
  | inl e ↦
      let first : c ≡ 46 = ground (arith, ==_iff c 46) in
      let second : d ≡ 46 = ground (arith, ==_iff d 46) in rw (first, second) refl
  | inr e ↦ rw e refl
]
unquote-escape_dots (c ∷ d ∷ e ∷ component) = refl
