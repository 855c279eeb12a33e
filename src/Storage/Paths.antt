-- ===== src/Storage/Paths.antt =====
-- encode_path_component of lattica_query_src/lattica_query/storage/_files.py, and the paths of keys and
-- tokens that storage/key_store.py and storage/token_store.py make with it. A text is given by its bytes in
-- UTF-8, which is what `urllib.parse.quote` works on.
use lattica_studio.Prelude.{
  ℕ, ◌+◌, ◌/◌, ◌%◌, List, [], ◌∷◌, ◌++◌, Bool, ◌||◌, ◌&&◌, leb, ltb, ◌==◌, if◌then◌else◌,
}
use lattica_studio.Result.{Result, ok, err, value_error, or_raise, ◌>>=◌}
use lattica_studio.Credentials.{codes, TokenIdentity, QueryToken}

-- The bytes that `quote` keeps, with `safe="-_."`: letters, digits and `_.-~`.
unfoldable pub is_kept : ℕ → Bool
is_kept b =
    (leb b'a' b && leb b b'z')
    || (leb b'A' b && leb b b'Z')
    || (leb b'0' b && leb b b'9')
    || b == b'_'
    || b == b'.'
    || b == b'-'
    || b == b'~'

-- The digits of `%{:02X}`
unfoldable pub hex_digit : ℕ → ℕ
hex_digit d = if ltb d 10 then b'0' + d else 55 + d

unfoldable pub quote_byte : ℕ → List ℕ
unfolding is_kept hex_digit
quote_byte b = if is_kept b then b ∷ [] else b'%' ∷ hex_digit (b / 16) ∷ hex_digit (b % 16) ∷ []

-- `urllib.parse.quote`
unfoldable pub quote : List ℕ → List ℕ
unfolding quote_byte
quote [] = []
quote (b ∷ bytes) = quote_byte b ++ quote bytes

-- `component.replace(".", "%2E")` where the component is "." or ".."
unfoldable pub escape_dots : List ℕ → List ℕ
escape_dots [] = []
escape_dots (c ∷ []) = if c == b'.' then b'%' ∷ b'2' ∷ b'E' ∷ [] else c ∷ []
escape_dots (c ∷ d ∷ []) =
    if c == b'.' && d == b'.' then b'%' ∷ b'2' ∷ b'E' ∷ b'%' ∷ b'2' ∷ b'E' ∷ [] else c ∷ d ∷ []
escape_dots (c ∷ d ∷ e ∷ component) = c ∷ d ∷ e ∷ component

unfoldable pub encode_path_component : List ℕ → Result (List ℕ)
unfolding quote escape_dots
encode_path_component [] = err value_error
encode_path_component (b ∷ bytes) = ok (escape_dots (quote (b ∷ bytes)))

-- The UTF-8 bytes of a character.
unfoldable pub utf8_of : ℕ → List ℕ
utf8_of c =
    if ltb c 128
    then c ∷ []
    else if ltb c 2048
    then (192 + c / 64) ∷ (128 + c % 64) ∷ []
    else if ltb c 65536
    then (224 + c / 4096) ∷ (128 + c / 64 % 64) ∷ (128 + c % 64) ∷ []
    else (240 + c / 262144) ∷ (128 + c / 4096 % 64) ∷ (128 + c / 64 % 64) ∷ (128 + c % 64) ∷ []

unfoldable pub utf8 : List ℕ → List ℕ
unfolding utf8_of
utf8 [] = []
utf8 (c ∷ cs) = utf8_of c ++ utf8 cs

-- get_query_token_path of storage/token_store.py: the directory of the name and the file of the id, under
-- the directory of tokens.
unfoldable pub get_query_token_path : QueryToken → Result (List ℕ × List ℕ)
unfolding utf8 encode_path_component
get_query_token_path token = do
  name ← or_raise token.identity.name value_error
  directory ← encode_path_component (utf8 (codes name))
  file ← encode_path_component (utf8 (codes token.identity.id))
  ok (directory, file ++ utf8 (codes ".json"))

-- get_key_path of storage/key_store.py, under the directory of keys.
unfoldable pub get_key_path : TokenIdentity → Result (List ℕ)
unfolding utf8 encode_path_component
get_key_path token = encode_path_component (utf8 (codes token.id))
