-- ===== src/Storage/Tokens.antt =====
-- Saved query tokens: lattica_query_src/lattica_query/storage/token_store.py. A file of the store is one
-- candidate of a `glob`: its path, by its bytes, and what `stat` and a read of it give.
use lattica_studio.Prelude.{
  ℕ, String, List, [], ◌∷◌, Option, none, some, Bool, true, false, ◌||◌, ◌&&◌, ltb, ◌==◌,
  if◌then◌else◌,
}
use lattica_studio.Result.{
  Result, ok, err, value_error, file_not_found_error, token_storage_error, raise_if, or_raise,
  ◌>>=◌, ◌>>◌,
}
use lattica_studio.Studio.{Json}
use lattica_studio.Storage.Load.{lstrip, strip}
use lattica_studio.Credentials.{QueryToken, token_from_dict, codes, is_blank}

-- `stat` of a candidate: its time, no such file, or another OSError.
pub data Stat : Type 0 where
  at : ℕ → Stat
  gone : Stat
  refused : Stat

-- `content` is none where the file cannot be read or holds no JSON.
pub record Candidate : Type 0 where
  pub path : List ℕ
  pub stat : Stat
  pub content : Option Json

-- `a > b` of two texts
unfoldable pub is_after : List ℕ → List ℕ → Bool
is_after [] bs = false
is_after (a ∷ as') [] = true
is_after (a ∷ as') (b ∷ bs) = ltb b a || (a == b && is_after as' bs)

-- A candidate that `stat` gives a time, with that time.
abbrev pub Timed : Type 0
Timed = ℕ × Candidate

-- `candidate[:2] > newest[:2]`
unfoldable pub is_newer : Timed → Timed → Bool
unfolding is_after
is_newer (m, c) (n, d) = ltb n m || (m == n && is_after c.path d.path)

abbrev pub newer_of : Timed → Option Timed → Timed
newer_of c none = c
newer_of c (some d) = if is_newer c d then c else d

-- The loop of `_newest`
unfoldable pub newest_from : Option Timed → List Candidate → Result (Option Timed)
unfolding is_newer
newest_from newest [] = ok newest
newest_from newest (c ∷ candidates) = elim c.stat [
  | at m ↦ newest_from (some (newer_of (m, c) newest)) candidates
  | gone ↦ newest_from newest candidates
  | refused ↦ err token_storage_error
]

-- `_newest`
unfoldable pub newest : List Candidate → Result Candidate
unfolding newest_from
newest candidates = do
  found ← newest_from none candidates
  timed ← or_raise found file_not_found_error
  ok timed.1

-- `(OSError, UnicodeError, json.JSONDecodeError, ValueError)`: what reading a token can raise.
abbrev pub as_token_error : Result QueryToken → Result QueryToken
as_token_error (ok token) = ok token
as_token_error (err e) = err token_storage_error

abbrev pub token_of : Option Json → Result QueryToken
token_of none = err token_storage_error
token_of (some data_of) = as_token_error (token_from_dict data_of)

-- `load_query_token`, on the candidates of all names or of the given one.
unfoldable pub load_query_token :
    List Candidate → (List ℕ → List Candidate) → Option String → Result QueryToken
unfolding newest token_from_dict is_blank lstrip
load_query_token all named none = do c ← newest all; token_of c.content
load_query_token all named (some name) = do
  raise_if (is_blank (codes name)) value_error
  c ← newest (named (strip (codes name)))
  token_of c.content
