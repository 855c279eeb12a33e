-- ===== src/Storage/FileName.antt =====
-- What `encode_path_component` of lattica_query_src/lattica_query/storage/_files.py promises of a component.
use lattica_studio.Prelude.{
  ℕ, ◌/◌, ◌%◌, ◌<◌, ◌≡◌, ◌≢◌, refl, ap, sym, ◌∙◌, List, [], ◌∷◌, true, false, ◌&&◌, ◌==◌,
  Bool-cases, inl, inr, arith, ==_iff,
}
use lattica_studio.Result.{ok}
use lattica_studio.Chain.{is_in}
use lattica_studio.Pipeline.Walk.{is_in-append}
use lattica_studio.Storage.Paths.{
  is_kept, hex_digit, quote_byte, quote, escape_dots, encode_path_component,
}
use lattica_studio.Storage.Escape.{
  plain, unquote, AreBytes, unquote-quote, unquote-escape_dots, high_digit, low_digit,
}

-- A byte that `quote` neither keeps nor writes.
abbrev pub IsForbidden : ℕ → Type 0
IsForbidden x = (is_kept x ≡ false) × (x ≢ 37)

hex_digit-kept : (d : ℕ) → d < 16 → is_kept (hex_digit d) ≡ true
unfolding is_kept hex_digit
hex_digit-kept d h = ground arith

kept_differs : (x y : ℕ) → is_kept y ≡ true → is_kept x ≡ false → (y == x) ≡ false
kept_differs x y kept dropped = elim (Bool-cases (y == x)) [
  | inl e ↦
      let same : y ≡ x = (==_iff y x).0 e in
      let both : is_kept x ≡ true = sym (ap is_kept same) ∙ kept in cc
  | inr e ↦ e
]

percent_differs : (x : ℕ) → x ≢ 37 → (37 == x) ≡ false
percent_differs x differs = elim (Bool-cases (37 == x)) [
  | inl e ↦ absurd (differs (sym ((==_iff 37 x).0 e)))
  | inr e ↦ e
]

is_in-quote_byte : (x b : ℕ) → b < 256 → IsForbidden x → is_in x (quote_byte b) ≡ false
unfolding is_in quote_byte
is_in-quote_byte x b h (dropped, differs) = elim (Bool-cases (is_kept b)) [
  | inl e ↦ rw (e, kept_differs x b e dropped) refl
  | inr e ↦
      let high =
        kept_differs x (hex_digit (b / 16)) (hex_digit-kept (b / 16) (high_digit b h)) dropped in
      let low =
        kept_differs x (hex_digit (b % 16)) (hex_digit-kept (b % 16) (low_digit b)) dropped in
      rw (e, percent_differs x differs, high, low) refl
]

is_in-quote :
    (x : ℕ) (bytes : List ℕ) → AreBytes bytes → IsForbidden x → is_in x (quote bytes) ≡ false
unfolding is_in quote
is_in-quote x [] h f = refl
is_in-quote x (b ∷ bytes) (first, rest) f =
    is_in-append x (quote_byte b) (quote bytes)
    ∙ rw (is_in-quote_byte x b first f, is_in-quote x bytes rest f) refl

is_in-escaped :
    (x : ℕ) (rest : List ℕ)
    → IsForbidden x
    → is_in x rest ≡ false
    → is_in x (b'%' ∷ b'2' ∷ b'E' ∷ rest) ≡ false
unfolding is_in is_kept
is_in-escaped x rest (dropped, differs) h =
    rw
      (
        percent_differs x differs,
        kept_differs x b'2' refl dropped,
        kept_differs x b'E' refl dropped,
      )
      h

is_in-escape_dots :
    (x : ℕ) (component : List ℕ)
    → is_in x component ≡ false
    → IsForbidden x
    → is_in x (escape_dots component) ≡ false
unfolding is_in escape_dots
is_in-escape_dots x [] h f = refl
is_in-escape_dots x (c ∷ []) h f = elim (Bool-cases (c == b'.')) [
  | inl e ↦ rw e (is_in-escaped x [] f refl)
  | inr e ↦ rw e h
]
is_in-escape_dots x (c ∷ d ∷ []) h f = elim (Bool-cases (c == b'.' && d == b'.')) [
  | inl e ↦ rw e (is_in-escaped x (b'%' ∷ b'2' ∷ b'E' ∷ []) f (is_in-escaped x [] f refl))
  | inr e ↦ rw e h
]
is_in-escape_dots x (c ∷ d ∷ e ∷ component) h f = h

-- A component that names a file in its directory: it holds no `/` and no zero byte, and is none of the
-- names "", "." and "..".
pub record IsFileName (component : List ℕ) : Type 0 where
  pub no_slash : is_in b'/' component ≡ false
  pub no_zero : is_in 0 component ≡ false
  pub not_empty : component ≢ []
  pub not_dot : component ≢ b'.' ∷ []
  pub not_dots : component ≢ b'.' ∷ b'.' ∷ []

not_dot : (component : List ℕ) → escape_dots component ≢ b'.' ∷ []
unfolding escape_dots
not_dot [] h = cc
not_dot (c ∷ []) h = elim (Bool-cases (c == b'.')) [
  | inl e ↦ let same : c ≡ 46 = (==_iff c 46).0 e in let bad = rw same at h in cc
  | inr e ↦ ground (arith, ==_iff c 46)
]
not_dot (c ∷ d ∷ []) h = elim (Bool-cases (c == b'.' && d == b'.')) [
  | inl e ↦ let bad = rw e at h in cc
  | inr e ↦ let bad = rw e at h in cc
]
not_dot (c ∷ d ∷ e ∷ component) h = cc

not_dots : (component : List ℕ) → escape_dots component ≢ b'.' ∷ b'.' ∷ []
unfolding escape_dots
not_dots [] h = cc
not_dots (c ∷ []) h = elim (Bool-cases (c == b'.')) [
  | inl e ↦ let bad = rw e at h in cc
  | inr e ↦ let bad = rw e at h in cc
]
not_dots (c ∷ d ∷ []) h = elim (Bool-cases (c == b'.' && d == b'.')) [
  | inl e ↦ let bad = rw e at h in cc
  | inr e ↦ ground (arith, ==_iff c 46, ==_iff d 46)
]
not_dots (c ∷ d ∷ e ∷ component) h = cc

unquote-nil : unquote plain [] ≡ []
unfolding unquote
unquote-nil = refl

slash-IsForbidden : IsForbidden b'/'
unfolding is_kept
slash-IsForbidden = (refl, λ e. omega arith)

zero-IsForbidden : IsForbidden 0
unfolding is_kept
zero-IsForbidden = (refl, λ e. omega arith)

-- Whatever the text, the component that it is encoded to names a file in its directory, and is read back
-- as the text; so two texts have different components.
pub encode-IsFileName :
    (text component : List ℕ)
    → AreBytes text
    → encode_path_component text ≡ ok component
    → IsFileName component × (unquote plain component ≡ text)
unfolding encode_path_component
encode-IsFileName [] component h e = cc
encode-IsFileName (b ∷ bytes) component h e =
    let text = b ∷ bytes in
    let same : escape_dots (quote text) ≡ component = cc in
    let back : unquote plain (escape_dots (quote text)) ≡ text =
      unquote-escape_dots (quote text) ∙ unquote-quote text h in
    (
      record {
        no_slash = rw same at (
            is_in-escape_dots b'/' (quote text) (is_in-quote b'/' text h slash-IsForbidden)
              slash-IsForbidden);
        no_zero = rw same at (
            is_in-escape_dots 0 (quote text) (is_in-quote 0 text h zero-IsForbidden)
              zero-IsForbidden);
        not_empty = λ none_left. let bad = rw (same ∙ none_left, unquote-nil) at back in cc;
        not_dot = λ bad. not_dot (quote text) (same ∙ bad);
        not_dots = λ bad. not_dots (quote text) (same ∙ bad);
      },
      rw same at back,
    )
