-- ===== src/Storage/Newest.antt =====
-- What `_newest` of lattica_query_src/lattica_query/storage/token_store.py selects.
use lattica_studio.Prelude.{
  ℕ, ◌≡◌, ◌≤◌, refl, ap, sym, ◌∙◌, List, [], ◌∷◌, Option, none, some, true, false, Bool-cases, ◌⊎◌,
  inl, inr, arith,
}
use lattica_studio.Result.{ok, file_not_found_error, or_raise, ◌>>=◌, >>=-eq-ok}
use lattica_studio.Storage.Precedes.{Precedes, is_newer-time}
use lattica_studio.Storage.Tokens.{
  Stat, at, gone, refused, Candidate, is_after, Timed, is_newer, newer_of, newest_from, newest,
}

is_after_trans :
    (as' bs cs : List ℕ) → is_after as' bs ≡ true → is_after bs cs ≡ true → is_after as' cs ≡ true
unfolding is_after
is_after_trans [] bs cs h k = cc
is_after_trans (a ∷ as') [] cs h k = cc
is_after_trans (a ∷ as') (b ∷ bs) [] h k = refl
is_after_trans (a ∷ as') (b ∷ bs) (c ∷ cs) h k = ground (arith, is_after_trans as' bs cs)

is_after_irrefl : (as' : List ℕ) → is_after as' as' ≡ false
unfolding is_after
is_after_irrefl [] = refl
is_after_irrefl (a ∷ as') = ground (arith, is_after_irrefl as')

is_newer_trans : (c d e : Timed) → is_newer c d ≡ true → is_newer d e ≡ true → is_newer c e ≡ true
unfolding is_newer
is_newer_trans (m, c) (n, d) (k, e) h l = ground (arith, is_after_trans c.path d.path e.path)

is_newer_irrefl : (c : Timed) → is_newer c c ≡ false
unfolding is_newer
is_newer_irrefl (m, c) = ground (arith, is_after_irrefl c.path)

is_after_cotrans :
    (as' bs cs : List ℕ)
    → is_after as' cs ≡ true
    → (is_after as' bs ≡ true) ⊎ (is_after bs cs ≡ true)
unfolding is_after
is_after_cotrans [] bs cs h = cc
is_after_cotrans (a ∷ as') [] cs h = inl refl
is_after_cotrans (a ∷ as') (b ∷ bs) [] h = inr refl
is_after_cotrans (a ∷ as') (b ∷ bs) (c ∷ cs) h = ground (arith, is_after_cotrans as' bs cs)

is_newer_cotrans :
    (c d e : Timed) → is_newer c d ≡ false → is_newer d e ≡ false → is_newer c e ≡ false
unfolding is_newer
is_newer_cotrans (m, c) (n, d) (k, e) h l = ground (arith, is_after_cotrans c.path d.path e.path)

is_newer_asym : (c d : Timed) → is_newer c d ≡ true → is_newer d c ≡ false
is_newer_asym c d h = elim (Bool-cases (is_newer d c)) [
  | inl e ↦ let loop = is_newer_trans c d c h e in let none_such = is_newer_irrefl c in cc
  | inr e ↦ e
]

-- A candidate with its time.
abbrev pub IsTimed : Timed → List Candidate → Type 0
IsTimed t [] = ⊥
IsTimed t (c ∷ candidates) = ((t.1 ≡ c) × (c.stat ≡ at t.0)) ⊎ IsTimed t candidates

-- What the loop has found at its end, from what it has found before.
abbrev Chosen : Option Timed → List Candidate → Option Timed → Type 0
Chosen found candidates none = (found ≡ none) × ((x : Timed) → IsTimed x candidates → ⊥)
Chosen found candidates (some t) =
    ((found ≡ some t) ⊎ IsTimed t candidates)
    × ((x : Timed) → IsTimed x candidates → is_newer x t ≡ false)
    × ((d : Timed) → found ≡ some d → is_newer d t ≡ false)

-- `c` and what was found before, against a `t` that the newer of them does not exceed.
newer_of_lem :
    (c t : Timed) (found : Option Timed)
    → is_newer (newer_of c found) t ≡ false
    → (is_newer c t ≡ false) × ((d : Timed) → found ≡ some d → is_newer d t ≡ false)
newer_of_lem c t none h = (h, λ d e. cc)
newer_of_lem c t (some d) h = elim (Bool-cases (is_newer c d)) [
  | inl e ↦
      let at_c : is_newer c t ≡ false = rw e at h in
      (
        at_c,
        λ d' e'.
            let same : d ≡ d' = cc in
            rw same at (is_newer_cotrans d c t (is_newer_asym c d e) at_c),
      )
  | inr e ↦
      let at_d : is_newer d t ≡ false = rw e at h in
      (is_newer_cotrans c d t e at_d, λ d' e'. let same : d ≡ d' = cc in rw same at at_d)
]

newer_of-cases :
    (c : Timed) (found : Option Timed) → (newer_of c found ≡ c) ⊎ (found ≡ some (newer_of c found))
newer_of-cases c none = inl refl
newer_of-cases c (some d) = elim (Bool-cases (is_newer c d)) [
  | inl e ↦ inl (rw e refl)
  | inr e ↦ inr (rw e refl)
]

timed_step :
    (m : ℕ) (c : Candidate) (candidates : List Candidate) (found r : Option Timed)
    → c.stat ≡ at m
    → Chosen (some (newer_of (m, c) found)) candidates r
    → Chosen found (c ∷ candidates) r
timed_step m c candidates found none e (bad, no_more) = cc
timed_step m c candidates found (some t) e (which, others, before) =
    let (at_c, at_found) = newer_of_lem (m, c) t found (before (newer_of (m, c) found) refl) in
    (
      elim which [
        | inl p ↦
            let is_t : newer_of (m, c) found ≡ t = cc in
            elim (newer_of-cases (m, c) found) [
              | inl q ↦
                  let is_c : t ≡ (m, c) = sym is_t ∙ q in
                  inr (inl (ap (λ u. u.1) is_c, e ∙ ap (λ u. at u.0) (sym is_c)))
              | inr q ↦ inl (q ∙ ap some is_t)
            ]
        | inr i ↦ inr (inr i)
      ],
      λ (k, d) i. elim i [
        | inl (same, time) ↦ let same_time : k ≡ m = cc in rw (same, same_time) at_c
        | inr more ↦ others (k, d) more
      ],
      at_found,
    )

other_step :
    (c : Candidate) (candidates : List Candidate) (found r : Option Timed)
    → c.stat ≡ gone
    → Chosen found candidates r
    → Chosen found (c ∷ candidates) r
other_step c candidates found none e (same, no_more) =
    (same, λ x i. elim i [ inl (is_c, time) ↦ cc | inr more ↦ no_more x more ])
other_step c candidates found (some t) e (which, others, before) = (
  elim which [ inl p ↦ inl p | inr i ↦ inr (inr i) ],
  λ x i. elim i [ inl (is_c, time) ↦ cc | inr more ↦ others x more ],
  before,
)

next :
    (c : Candidate) (candidates : List Candidate) (found r : Option Timed)
    → ((f s : Option Timed) → newest_from f candidates ≡ ok s → Chosen f candidates s)
    → (stat : Stat) → c.stat ≡ stat
    → newest_from found (c ∷ candidates) ≡ ok r
    → Chosen found (c ∷ candidates) r
unfolding newest_from
next c candidates found r rest (at m) e h =
    timed_step m c candidates found r e (rest (some (newer_of (m, c) found)) r (rw e at h))
next c candidates found r rest gone e h =
    other_step c candidates found r e (rest found r (rw e at h))
next c candidates found r rest refused e h = let bad = rw e at h in cc

newest_from-chosen :
    (candidates : List Candidate) (found r : Option Timed)
    → newest_from found candidates ≡ ok r
    → Chosen found candidates r
unfolding newest_from
newest_from-chosen [] none none h = (refl, λ x i. absurd i)
newest_from-chosen [] none (some t) h = cc
newest_from-chosen [] (some d) none h = cc
newest_from-chosen [] (some d) (some t) h =
    let same : d ≡ t = cc in
    (
      inl (ap some same),
      λ x i. absurd i,
      λ d' e. let is_d : d ≡ d' = cc in rw (sym is_d, same) (is_newer_irrefl t),
    )
newest_from-chosen (c ∷ candidates) found r h =
    next c candidates found r (newest_from-chosen candidates) c.stat refl h

-- `c` is a candidate of time `m`, no other candidate has a later time, and those of the same time stand
-- before it, by their paths.
abbrev pub IsNewest : Candidate → ℕ → List Candidate → Type 0
IsNewest c m candidates =
    IsTimed (m, c) candidates
    × ((k : ℕ) (d : Candidate)
        → IsTimed (k, d) candidates
        → (k ≤ m) × (k ≡ m → Precedes d.path c.path))

-- Where `_newest` returns, it returns one of the candidates, whose time no other candidate's exceeds.
-- Each candidate of the same time has a path that starts its path, or that has a lesser character where
-- the two first differ.
pub newest_lem :
    (candidates : List Candidate) (c : Candidate)
    → newest candidates ≡ ok c
    → (m : ℕ) × IsNewest c m candidates
unfolding newest
newest_lem candidates c h =
    let (found, e, h1) = >>=-eq-ok (newest_from none candidates) _ h in
    view found (newest_from-chosen candidates none found e) h1
  where
    view :
        (found : Option Timed)
        → Chosen none candidates found
        → (do timed ← or_raise found file_not_found_error; ok timed.1) ≡ ok c
        → (m : ℕ) × IsNewest c m candidates
    view none chosen k = cc
    view (some (m, d)) (which, others, before) k =
        let same : d ≡ c = cc in
        elim which [
          | inl p ↦ cc
          | inr i ↦
              (m, (rw same at i, λ n x j. is_newer-time m n c x (rw same at (others (n, x) j))))
        ]
