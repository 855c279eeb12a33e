-- ===== src/Primes/Total.antt =====
-- When `get_primes_from_precisions_list` succeeds, and what it raises otherwise.
use lattica_studio.Prelude.{
  ℕ, ◌-◌, ◌≤◌, ◌<◌, ◌≡◌, ◌≢◌, refl, List, [], ◌∷◌, ◌++◌, none, true, false, map, length, arith, inl,
  inr, ltb, Bool-cases, ◌==◌,
}
use lattica_studio.Prelude.Count.{count, IsIn}
use lattica_studio.Result.{Error, ok, err, value_error, index_error, runtime_error}
use lattica_studio.Primes.{
  QList, relative_precisions, precisions_needed, has_unknown, has_shortage, unflatten_rows_cols,
  get_primes_from_precisions_list,
}
use lattica_studio.Primes.Pool.{Pools, lookup}
use lattica_studio.Primes.Draws.{available, Suffices, draw_total}

-- A row has an entry, and each of its entries is less than the one before.
abbrev pub IsDecreasing : List ℕ → Type 0
IsDecreasing [] = ⊥
IsDecreasing (a ∷ []) = Unit
IsDecreasing (a ∷ b ∷ row) = (b < a) × IsDecreasing (b ∷ row)

abbrev pub AllDecreasing : QList → Type 0
AllDecreasing [] = Unit
AllDecreasing (row ∷ rows) = IsDecreasing row × AllDecreasing rows

-- The bit-lengths of a row: the steps between its entries, then the last entry.
abbrev pub row_steps : List ℕ → List ℕ
row_steps [] = []
row_steps (a ∷ []) = a ∷ []
row_steps (a ∷ b ∷ row) = (a - b) ∷ row_steps (b ∷ row)

abbrev pub all_steps : QList → List ℕ
all_steps [] = []
all_steps (row ∷ rows) = row_steps row ++ all_steps rows

relative_precisions-steps :
    (row : List ℕ) → IsDecreasing row → relative_precisions row ≡ ok (row_steps row)
unfolding relative_precisions
relative_precisions-steps [] h = absurd h
relative_precisions-steps (a ∷ []) h = refl
relative_precisions-steps (a ∷ b ∷ row) (less, h) =
    ground (arith, relative_precisions-steps (b ∷ row) h)

relative_precisions-refused :
    (a : ℕ) (row : List ℕ)
    → (IsDecreasing (a ∷ row) → ⊥)
    → relative_precisions (a ∷ row) ≡ err value_error
unfolding relative_precisions
relative_precisions-refused a [] bad = absurd (bad tt)
relative_precisions-refused a (b ∷ row) bad = elim (Bool-cases (ltb b a)) [
  | inr e ↦ rw e refl
  | inl e ↦
      let rest : relative_precisions (b ∷ row) ≡ err value_error =
        relative_precisions-refused b row λ h. bad (ground arith, h) in
      rw (e, rest) refl
]

precisions_needed-steps : (qs : QList) → AllDecreasing qs → precisions_needed qs ≡ ok (all_steps qs)
unfolding precisions_needed
precisions_needed-steps [] h = refl
precisions_needed-steps (row ∷ qs) (here, more) =
    rw (relative_precisions-steps row here, precisions_needed-steps qs more) refl

precisions_needed-refused :
    (before : QList) (row : List ℕ) (after : QList) {e : Error}
    → AllDecreasing before
    → relative_precisions row ≡ err e
    → precisions_needed (before ++ row ∷ after) ≡ err e
unfolding precisions_needed
precisions_needed-refused [] row after h f = rw f refl
precisions_needed-refused (first ∷ before) row after (here, more) f =
    rw (relative_precisions-steps first here, precisions_needed-refused before row after more f)
      refl

abbrev pub AllKnown : List ℕ → Pools → Type 0
AllKnown ps pools = (p : ℕ) → IsIn p ps → lookup p pools ≢ none

has_unknown-known : (ps : List ℕ) (pools : Pools) → AllKnown ps pools → has_unknown ps pools ≡ false
unfolding has_unknown
has_unknown-known [] pools h = refl
has_unknown-known (p ∷ ps) pools h =
    ground (arith, h p (inl refl), has_unknown-known ps pools (λ q i. h q (inr i)))

has_unknown-found :
    (ps : List ℕ) (pools : Pools) (p : ℕ)
    → IsIn p ps
    → lookup p pools ≡ none
    → has_unknown ps pools ≡ true
unfolding has_unknown
has_unknown-found [] pools p i e = absurd i
has_unknown-found (q ∷ ps) pools p (inl same) e = ground arith
has_unknown-found (q ∷ ps) pools p (inr i) e = ground (arith, has_unknown-found ps pools p i e)

has_shortage-enough :
    (ps all : List ℕ) (pools : Pools) → Suffices all pools → has_shortage ps all pools ≡ false
unfolding has_shortage
has_shortage-enough [] all pools h = refl
has_shortage-enough (p ∷ ps) all pools h = ground (arith, h p, has_shortage-enough ps all pools h)

has_shortage-found :
    (ps all : List ℕ) (pools : Pools) (p : ℕ)
    → IsIn p ps
    → lookup p pools ≢ none
    → available p pools < count p all
    → has_shortage ps all pools ≡ true
unfolding has_shortage
has_shortage-found [] all pools p i known short = absurd i
has_shortage-found (q ∷ ps) all pools p (inl same) known short = ground arith
has_shortage-found (q ∷ ps) all pools p (inr i) known short =
    ground (arith, has_shortage-found ps all pools p i known short)

count-IsIn : (p : ℕ) (ps : List ℕ) → IsIn p ps → 1 ≤ count p ps
count-IsIn p [] i = absurd i
count-IsIn p (q ∷ ps) (inl same) = ground arith
count-IsIn p (q ∷ ps) (inr i) = ground (arith, count-IsIn p ps i)

IsIn-count : (p : ℕ) (ps : List ℕ) → 1 ≤ count p ps → IsIn p ps
IsIn-count p [] h = absurd (omega arith)
IsIn-count p (q ∷ ps) h = elim (Bool-cases (q == p)) [
  | inl e ↦ inl (ground arith)
  | inr e ↦ inr (IsIn-count p ps (ground arith))
]

AllKnown-of_enough : (ps : List ℕ) (pools : Pools) → Suffices ps pools → AllKnown ps pools
AllKnown-of_enough ps pools h p i e = ground (arith, h p, count-IsIn p ps i)

module _ (pools : Pools) (qs : QList) where
  abbrev pub Raises : Error → Type 0
  Raises e = get_primes_from_precisions_list pools qs ≡ err e

  abbrev pub Succeeds : Type 0
  Succeeds = (fs : List (List ℕ)) × (get_primes_from_precisions_list pools qs ≡ ok fs)

  enough-Succeeds : AllDecreasing qs → Suffices (all_steps qs) pools → Succeeds
  unfolding get_primes_from_precisions_list
  enough-Succeeds rows enough =
      let ps = all_steps qs in
      let known = has_unknown-known ps pools (AllKnown-of_enough ps pools enough) in
      let plenty = has_shortage-enough ps ps pools enough in
      let (xs, f, _) = draw_total ps pools enough in
      (
        unflatten_rows_cols xs (map (length {A = ℕ}) qs),
        rw (precisions_needed-steps qs rows, known, plenty, f) refl,
      )

  unknown-Raises :
      (p : ℕ)
      → AllDecreasing qs
      → IsIn p (all_steps qs)
      → lookup p pools ≡ none
      → Raises value_error
  unfolding get_primes_from_precisions_list
  unknown-Raises p rows i e =
      let unknown = has_unknown-found (all_steps qs) pools p i e in
      rw (precisions_needed-steps qs rows, unknown) refl

  shortage-Raises :
      (p : ℕ)
      → AllDecreasing qs
      → AllKnown (all_steps qs) pools
      → available p pools < count p (all_steps qs)
      → Raises runtime_error
  unfolding get_primes_from_precisions_list
  shortage-Raises p rows known short =
      let ps = all_steps qs in
      let i = IsIn-count p ps (omega arith) in
      let all_known = has_unknown-known ps pools known in
      let found = has_shortage-found ps ps pools p i (known p i) short in
      rw (precisions_needed-steps qs rows, all_known, found) refl

refused_row :
    (pools : Pools) (before : QList) (row : List ℕ) (after : QList) (e : Error)
    → AllDecreasing before
    → relative_precisions row ≡ err e
    → Raises pools (before ++ row ∷ after) e
unfolding get_primes_from_precisions_list
refused_row pools before row after e rows refused =
    rw (precisions_needed-refused before row after rows refused) refl

-- The outcome for every chain. If each row has an entry and is strictly decreasing, the needed
-- bit-lengths are the steps between a row's entries and its last entry. The call then succeeds if, of
-- each bit-length, the pools hold at least as many primes as are needed. It raises ValueError if a needed
-- one has no pool, and RuntimeError if all have one and a pool holds fewer primes than needed.
-- If not, the first row that is not strictly decreasing raises ValueError, and where the first such row
-- has no entry, IndexError.
pub assignment_total :
    (pools : Pools) (qs : QList)
    → (AllDecreasing qs → Suffices (all_steps qs) pools → Succeeds pools qs)
      × ((p : ℕ)
          → AllDecreasing qs
          → IsIn p (all_steps qs)
          → lookup p pools ≡ none
          → Raises pools qs value_error)
      × ((p : ℕ)
          → AllDecreasing qs
          → AllKnown (all_steps qs) pools
          → available p pools < count p (all_steps qs)
          → Raises pools qs runtime_error)
      × ((before after : QList) (a : ℕ) (row : List ℕ)
          → AllDecreasing before
          → (IsDecreasing (a ∷ row) → ⊥)
          → qs ≡ before ++ (a ∷ row) ∷ after
          → Raises pools qs value_error)
      × ((before after : QList)
          → AllDecreasing before
          → qs ≡ before ++ [] ∷ after
          → Raises pools qs index_error)
assignment_total pools qs = (
  enough-Succeeds pools qs,
  unknown-Raises pools qs,
  shortage-Raises pools qs,
  λ before after a row rows bad same. rw same (
      refused_row pools before (a ∷ row) after value_error rows
        (relative_precisions-refused a row bad)),
  λ before after rows same.
      rw same
        (refused_row pools before [] after index_error rows (unfold relative_precisions in refl)),
)
