-- ===== src/Levels/Drop.antt =====
-- What one drop does to the active rows and columns.
use native.Mathlib.Nat.{zero-add}
use lattica_studio.Prelude.{
  ℕ, zero, suc, ◌+◌, ◌≤◌, ◌≡◌, ◌≢◌, ap, ◌∙◌, List, [], ◌∷◌, none, some, length, length-set, set,
  get_elem?, get_elem?-lt, arith, lt→ltb,
}
use lattica_studio.Prelude.Splice.{remove_at, length-remove_at, drop_one}
use lattica_studio.Result.{Result, ok, err}
use lattica_studio.Levels.{Scales, sum_cols, collect_cols, clear_cols, dropped_levels}

abbrev pub IsBits : List ℕ → Type 0
IsBits [] = Unit
IsBits (c ∷ cs) = (c ≤ 1) × IsBits cs

-- A row of columns, zeros and ones, with one active column or more.
abbrev pub IsRow : List ℕ → Type 0
IsRow cols = IsBits cols × (1 ≤ sum_cols cols)

abbrev pub AllRows : List (List ℕ) → Type 0
AllRows [] = Unit
AllRows (c ∷ cs) = IsRow c × AllRows cs

-- The active columns of all rows: the levels that are left.
abbrev pub total : List (List ℕ) → ℕ
total [] = 0
total (c ∷ cs) = sum_cols c + total cs

pub collect_one :
    (i : ℕ) (c : List ℕ)
    → IsBits c
    → 1 ≤ sum_cols c
    → (j : ℕ) × (collect_cols i [] 1 c ≡ (i + j) ∷ []) × (get_elem? c j ≡ some 1)
unfolding collect_cols
collect_one i [] b h = absurd (omega arith)
collect_one i (zero ∷ c) b h =
    let (j, e, at) = collect_one (suc i) c b.1 (omega arith) in
    (suc j, e ∙ ap (λ k. k ∷ []) (omega arith), at)
collect_one i (suc c ∷ cs) b h = (0, ground arith, ap some (omega (arith, b.0)))

sum_cols-set :
    (c : List ℕ) (j x : ℕ) → get_elem? c j ≡ some x → sum_cols (set c j 0) + x ≡ sum_cols c
sum_cols-set [] j x h = cc
sum_cols-set (y ∷ c) zero x h = ground arith
sum_cols-set (y ∷ c) (suc j) x h = omega (arith, sum_cols-set c j x h)

IsBits-set : (c : List ℕ) (j : ℕ) → IsBits c → IsBits (set c j 0)
IsBits-set [] j b = tt
IsBits-set (y ∷ c) zero b = (omega arith, b.1)
IsBits-set (y ∷ c) (suc j) b = (b.0, IsBits-set c j b.1)

total-set :
    (cols : List (List ℕ)) (row : ℕ) (c new : List ℕ)
    → get_elem? cols row ≡ some c
    → total (set cols row new) + sum_cols c ≡ total cols + sum_cols new
total-set [] row c new h = cc
total-set (y ∷ cols) zero c new h = ground arith
total-set (y ∷ cols) (suc row) c new h = omega (arith, total-set cols row c new h)

AllRows-set :
    (cols : List (List ℕ)) (row : ℕ) (new : List ℕ)
    → AllRows cols
    → IsRow new
    → AllRows (set cols row new)
AllRows-set [] row new a n = tt
AllRows-set (y ∷ cols) zero new a n = (n, a.1)
AllRows-set (y ∷ cols) (suc row) new a n = (a.0, AllRows-set cols row new a.1 n)

total-remove_at :
    (cols : List (List ℕ)) (row : ℕ) (c : List ℕ)
    → get_elem? cols row ≡ some c
    → total (remove_at cols row) + sum_cols c ≡ total cols
total-remove_at [] row c h = cc
total-remove_at (y ∷ cols) zero c h = ground arith
total-remove_at (y ∷ cols) (suc row) c h =
    rw (drop_one y cols row) (omega (arith, total-remove_at cols row c h))

AllRows-remove_at : (cols : List (List ℕ)) (row : ℕ) → AllRows cols → AllRows (remove_at cols row)
AllRows-remove_at [] zero a = tt
AllRows-remove_at [] (suc row) a = let e : suc row + 1 ≡ suc (row + 1) = omega arith in rw e tt
AllRows-remove_at (y ∷ cols) zero a = a.1
AllRows-remove_at (y ∷ cols) (suc row) a =
    rw (drop_one y cols row) (a.0, AllRows-remove_at cols row a.1)

pub AllRows-get :
    (cols : List (List ℕ)) (row : ℕ) (c : List ℕ)
    → AllRows cols
    → get_elem? cols row ≡ some c
    → IsRow c
AllRows-get [] row c a h = cc
AllRows-get (y ∷ cols) zero c a h = let e : y ≡ c = cc in rw e at (a.0)
AllRows-get (y ∷ cols) (suc row) c a h = AllRows-get cols row c a.1 h

-- The active rows and columns of a value: as many of the one as of the other, and every row active.
pub record IsLevels (rows : List ℕ) (cols : List (List ℕ)) : Type 0 where
  pub same : length rows ≡ length cols
  pub active : AllRows cols

-- What a drop of one level leaves.
abbrev pub OneLess : List ℕ → List (List ℕ) → Result (List ℕ × List (List ℕ)) → Type 0
OneLess rows cols (ok (rows', cols')) = IsLevels rows' cols' × (total cols' + 1 ≡ total cols)
OneLess rows cols (err e) = ⊥

module _ {S : Type 0} (scales : Scales S) (rows : List ℕ) (cols : List (List ℕ)) (row : ℕ)
    (c : List ℕ) (at : get_elem? cols row ≡ some c) (levels : IsLevels rows cols) where
  c-IsRow : IsRow c
  c-IsRow = AllRows-get cols row c levels.active at

  -- The whole row goes where it has one active column,
  pub drop_row : sum_cols c ≡ 1 → OneLess rows cols (dropped_levels scales rows cols row none)
  unfolding dropped_levels
  drop_row one = (
    record {
      same = omega (
        arith,
        length-remove_at rows row (omega (arith, get_elem?-lt cols row at, levels.same)),
        length-remove_at cols row (get_elem?-lt cols row at),
        levels.same,
      );
      active = AllRows-remove_at cols row levels.active;
    },
    omega (arith, total-remove_at cols row c at),
  )

  dropped_col :
      (j : ℕ)
      → get_elem? c j ≡ some 1
      → dropped_levels scales rows cols row (some (j ∷ [])) ≡ ok (rows, set cols row (set c j 0))
  unfolding dropped_levels clear_cols
  dropped_col j h = rw (at, lt→ltb j (length c) (get_elem?-lt c j h))

  -- and its first active column where it has more.
  pub drop_col :
      sum_cols c ≢ 1
      → OneLess rows cols (dropped_levels scales rows cols row (some (collect_cols 0 [] 1 c)))
  drop_col more =
      let (j, e, h) = collect_one 0 c c-IsRow.0 c-IsRow.1 in
      let set_sum = sum_cols-set c j 1 h in
      rw (e, zero-add, dropped_col j h)
        (
          record {
            same = omega (arith, levels.same, length-set cols row (set c j 0));
            active =
                AllRows-set cols row (set c j 0) levels.active
                  (IsBits-set c j c-IsRow.0, omega (arith, c-IsRow.1, set_sum));
          },
          omega (arith, total-set cols row c (set c j 0) at, set_sum),
        )
