-- ===== src/Primes.antt =====
-- lattica_build_src/lattica_build/params/primes_utils.py: primes for the rows and columns of a modulus
-- chain, drawn from the pools of good_primes.json. The file's content is an argument: for each
-- bit-length, the list of its primes.
pub mod Pool
pub mod Draws
pub mod Assigned
pub mod Total
use lattica_studio.Prelude.{
  ℕ, zero, suc, ◌+◌, ◌-◌, List, [], ◌∷◌, ◌++◌, Option, none, some, Bool, true, false, ◌||◌, not,
  map, length, take, drop, ltb, ◌==◌, if◌then◌else◌,
}
use lattica_studio.Prelude.Count.{count}
use lattica_studio.Result.{
  Result, ok, err, value_error, index_error, runtime_error, key_error, raise_if, or_raise, ◌>>=◌,
  ◌>>◌,
}
use lattica_studio.Primes.Pool.{Pools, lookup, update, pop}

abbrev pub QList : Type 0
QList = List (List ℕ)

-- `diffs` of a row and its last entry, where the row is strictly decreasing. A row with no entry has
-- no last one.
unfoldable pub relative_precisions : List ℕ → Result (List ℕ)
relative_precisions [] = err index_error
relative_precisions (a ∷ []) = ok (a ∷ [])
relative_precisions (a ∷ b ∷ row) = do
  raise_if (not (ltb b a)) value_error
  rest ← relative_precisions (b ∷ row)
  ok ((a - b) ∷ rest)

unfoldable pub precisions_needed : QList → Result (List ℕ)
precisions_needed [] = ok []
precisions_needed (row ∷ rows) = do
  ps ← relative_precisions row
  rest ← precisions_needed rows
  ok (ps ++ rest)

-- Whether some precision of the first list has no pool.
unfoldable pub has_unknown : List ℕ → Pools → Bool
has_unknown [] pools = false
has_unknown (p ∷ ps) pools = elim (lookup p pools) [ none ↦ true | some _ ↦ has_unknown ps pools ]

-- Whether some precision of the first list is needed, in `all`, more often than its pool has primes.
unfoldable pub has_shortage : List ℕ → List ℕ → Pools → Bool
has_shortage [] all pools = false
has_shortage (p ∷ ps) all pools = elim (lookup p pools) [
  | none ↦ has_shortage ps all pools
  | some pool ↦ ltb (length pool) (count p all) || has_shortage ps all pools
]

-- The loop that draws: `pools[p].pop()` for each precision.
unfoldable pub draw : List ℕ → Pools → Result (List ℕ)
draw [] pools = ok []
draw (p ∷ ps) pools = do
  pool ← or_raise (lookup p pools) key_error
  (prime, left) ← or_raise (pop pool) index_error
  assigned ← draw ps (update p left pools)
  ok (prime ∷ assigned)

-- `idx` is the position that the loop has reached.
unfoldable pub unflatten_from : ℕ → List ℕ → List ℕ → List (List ℕ)
unflatten_from idx a [] = []
unflatten_from idx a (n ∷ ns) = take n (drop idx a) ∷ unflatten_from (idx + n) a ns

abbrev pub unflatten_rows_cols : List ℕ → List ℕ → List (List ℕ)
unflatten_rows_cols = unflatten_from 0

unfoldable pub get_primes_from_precisions_list : Pools → QList → Result (List (List ℕ))
get_primes_from_precisions_list pools qs = do
  precisions ← precisions_needed qs
  raise_if (has_unknown precisions pools) value_error
  raise_if (has_shortage precisions precisions pools) runtime_error
  assigned ← draw precisions pools
  ok (unflatten_rows_cols assigned (map (length {A = ℕ}) qs))
