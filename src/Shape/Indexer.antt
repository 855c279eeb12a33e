-- ===== src/Shape/Indexer.antt =====
-- `expand_ellipsis` and `resolve_single_axis_index` of shape_tracing.py.
use lattica_studio.Prelude.{
  ℕ, suc, ◌+◌, ◌-◌, List, [], ◌∷◌, ◌++◌, Option, none, some, Bool, true, false, length, take, drop,
  replicate, ltb, ◌==◌, not, if◌then◌else◌,
}
use lattica_studio.Prelude.Int.{ℤ, pos}
use lattica_studio.Prelude.Python.{eqb_ℤ}
use lattica_studio.Result.{Result, ok, err, value_error, type_error, raise_if, ◌>>=◌, ◌>>◌}

-- One entry of an indexer; `other` is a value of any other type.
pub data Entry : Type 0 where
  ellipsis : Entry
  index : ℤ → Entry
  slice : Option ℤ → Option ℤ → Option ℤ → Entry
  other : Entry

pub data Key : Type 0 where
  single : Entry → Key
  tuple : List Entry → Key

abbrev pub full_slice : Entry
full_slice = slice none none none

unfoldable pub is_full_slice : Entry → Bool
is_full_slice (slice none none none) = true
is_full_slice (slice none none (some step)) = eqb_ℤ step (pos 1)
is_full_slice _ = false

abbrev pub is_ellipsis : Entry → Bool
is_ellipsis ellipsis = true
is_ellipsis _ = false

unfoldable pub ellipsis_count : List Entry → ℕ
ellipsis_count [] = 0
ellipsis_count (e ∷ es) = (if is_ellipsis e then 1 else 0) + ellipsis_count es

-- `key.index(Ellipsis)`, for a key that has one
unfoldable pub ellipsis_index : List Entry → ℕ
ellipsis_index [] = 0
ellipsis_index (e ∷ es) = if is_ellipsis e then 0 else suc (ellipsis_index es)

unfoldable pub expand_entries : List Entry → ℕ → Result (List Entry)
unfolding ellipsis_count
expand_entries key ndim =
    if ellipsis_count key == 0
    then (do
      raise_if (ltb ndim (length key)) value_error
      ok (key ++ replicate (ndim - length key) full_slice))
    else do
      raise_if (ltb ndim (length key - 1)) value_error
      let idx = ellipsis_index key
      ok (take idx key ++ (replicate (ndim - (length key - 1)) full_slice ++ drop (suc idx) key))

unfoldable pub expand_ellipsis : Key → ℕ → Result (List Entry)
unfolding expand_entries ellipsis_count ellipsis_index
expand_ellipsis (single ellipsis) ndim = ok (replicate ndim full_slice)
expand_ellipsis (single e) ndim = do
  expanded ← expand_entries (e ∷ []) ndim
  raise_if (not (length expanded == ndim)) value_error
  ok expanded
expand_ellipsis (tuple key) ndim = do
  raise_if (ltb 1 (ellipsis_count key)) value_error
  expanded ← expand_entries key ndim
  raise_if (not (length expanded == ndim)) value_error
  ok expanded

-- `[(i, entry) for i, entry in enumerate(expanded) if not _is_full_slice(entry)]`, from `i` on
unfoldable pub active_from : ℕ → List Entry → List (ℕ × Entry)
active_from i [] = []
active_from i (e ∷ es) =
    let rest = active_from (suc i) es in if is_full_slice e then rest else (i, e) ∷ rest

abbrev pub is_key : Entry → Bool
is_key (index i) = true
is_key (slice start stop step) = true
is_key _ = false

abbrev pub the_active : List (ℕ × Entry) → Result (ℕ × Entry)
the_active [] = err value_error
the_active ((dim, entry) ∷ []) = raise_if (not (is_key entry)) type_error >> ok (dim, entry)
the_active (_ ∷ _ ∷ _) = err value_error

unfoldable pub resolve_single_axis_index : Key → ℕ → Result (ℕ × Entry)
unfolding expand_ellipsis active_from
resolve_single_axis_index key ndim = do
  expanded ← expand_ellipsis key ndim
  the_active (active_from 0 expanded)
