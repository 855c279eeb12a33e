-- ===== src/Pipeline/Exact.antt =====
-- The list that `get_leaf_ops` of lattica_build_src/lattica_build/base_classes/hom_pipeline.py returns.
use lattica_studio.Prelude.{
  ℕ, zero, suc, ◌≤◌, ◌≡◌, refl, sym, List, [], ◌∷◌, ◌++◌, Option, none, some, Bool, true, false,
  ◌==◌, Bool-cases, ◌↔◌, inl, inr, arith, length, ==_iff,
}
use lattica_studio.Prelude.Dict.{number_eq, get}
use lattica_studio.Prelude.Count.{count, count-append}
use lattica_studio.Chain.{is_in}
use lattica_studio.Align.Order.{count-is_in}
use lattica_studio.Pipeline.{
  OpType, HomOp, leaf, composite, Ops, Found, collect_each, visit, collect, collect_sections,
  nothing_found, get_leaf_ops,
}
use lattica_studio.Pipeline.Walk.{is_in-append, is_in-later, unseen_all}
use lattica_studio.Pipeline.Leaves.{IsSection, Contains, itself, below, sections_walk, collected}

abbrev pub IsLeaf : Ops → ℕ → Type 0
IsLeaf ops y = (t : OpType) × (get y ops ≡ some (leaf t))

-- What is collected is seen, stands there once, and is a leaf with the property `P`.
pub record IsProper (ops : Ops) (P : ℕ → Type 0) (found : Found) : Type 0 where
  pub leaf_seen : (y : ℕ) → is_in y found.leaves ≡ true → is_in y found.seen ≡ true
  pub once : (y : ℕ) → count y found.leaves ≤ 1
  pub good : (y : ℕ) → is_in y found.leaves ≡ true → P y × IsLeaf ops y

module _ (ops : Ops) (P : ℕ → Type 0)
    (child_too : (op c : ℕ) (children : List ℕ)
      → P op
      → get op ops ≡ some (composite children)
      → is_in c children ≡ true
      → P c) where
  absent :
      (op : ℕ) (found : Found)
      → is_in op found.seen ≡ false
      → IsProper ops P found
      → count op found.leaves ≡ 0
  absent op found new is = elim (Bool-cases (is_in op found.leaves)) [
    | inl i ↦ let seen = is.leaf_seen op i in cc
    | inr i ↦ count-is_in op found.leaves i
  ]

  IsProper-leaf :
      (op : ℕ) (t : OpType) (found : Found)
      → P op
      → get op ops ≡ some (leaf t)
      → is_in op found.seen ≡ false
      → IsProper ops P found
      → IsProper ops P (record { seen = op ∷ found.seen; leaves = found.leaves ++ op ∷ [] })
  unfolding is_in
  IsProper-leaf op t found p e new is = record {
    leaf_seen = λ y i. ground (arith, is_in-append y found.leaves (op ∷ []), is.leaf_seen y);
    once = λ y. rw (count-append y found.leaves (op ∷ [])) (elim (Bool-cases (op == y)) [
      | inl same ↦
          let is_op : op ≡ y = (==_iff op y).0 same in
          let no_leaf : count y found.leaves ≡ 0 = rw (sym is_op) (absent op found new is) in
          ground (arith, no_leaf)
      | inr other ↦ let once = is.once y in ground arith
    ]);
    good = λ y i. elim (Bool-cases (op == y)) [
      | inl same ↦ let is_op : op ≡ y = (==_iff op y).0 same in rw (sym is_op) (p, (t, e))
      | inr other ↦ is.good y (ground (arith, is_in-append y found.leaves (op ∷ [])))
    ];
  }

  Keeps : (ℕ → Found → Found) → Type 0
  Keeps go = (op : ℕ) (found : Found) → P op → IsProper ops P found → IsProper ops P (go op found)

  each-Keeps :
      (go : ℕ → Found → Found)
      → Keeps go
      → (children : List ℕ) (found : Found) → ((c : ℕ) → is_in c children ≡ true → P c)
      → IsProper ops P found
      → IsProper ops P (collect_each go children found)
  unfolding is_in Keeps
  each-Keeps go keeps [] found p is = is
  each-Keeps go keeps (child ∷ children) found p is =
      each-Keeps go keeps children (go child found) (λ c i. p c (ground arith))
        (keeps child found (p child (ground (arith, ==_iff child child))) is)

  visit-Keeps :
      (op : ℕ) (found : Found) (node : Option HomOp) (seen : Bool) (go : ℕ → Found → Found)
      → Keeps go
      → get op ops ≡ node
      → is_in op found.seen ≡ seen
      → P op
      → IsProper ops P found
      → IsProper ops P (visit (collect_each go) op seen node found)
  visit-Keeps op found _ true go keeps e i p is = is
  visit-Keeps op found none false go keeps e i p is = is
  visit-Keeps op found (some (leaf t)) false go keeps e i p is = IsProper-leaf op t found p e i is
  visit-Keeps op found (some (composite children)) false go keeps e i p is =
      each-Keeps go keeps children (record found { seen = op ∷ found.seen })
        (λ c j. child_too op c children p e j)
        (record {
          leaf_seen = λ y j. is_in-later y op found.seen (is.leaf_seen y j);
          once = is.once;
          good = is.good;
        })

  collect-Keeps : (fuel : ℕ) → Keeps (collect fuel ops)
  unfolding collect Keeps
  collect-Keeps zero op found p is = is
  collect-Keeps (suc fuel) op found p is =
      visit-Keeps op found (get op ops) (is_in op found.seen) (collect fuel ops)
        (collect-Keeps fuel) refl refl p is

  sections-IsProper :
      (fuel : ℕ) (sections : List (Option ℕ)) (found : Found)
      → ((op : ℕ) → IsSection op sections → P op)
      → IsProper ops P found
      → IsProper ops P (collect_sections fuel ops sections found)
  unfolding Keeps
  sections-IsProper fuel [] found p is = is
  sections-IsProper fuel (none ∷ sections) found p is = sections-IsProper fuel sections found p is
  sections-IsProper fuel (some x ∷ sections) found p is =
      sections-IsProper fuel sections (collect fuel ops x found) (λ op i. p op (inr i))
        (collect-Keeps fuel x found (p x (inl refl)) is)

-- A leaf operator under the operator of one of the sections.
abbrev pub IsUnder : Ops → List (Option ℕ) → ℕ → Type 0
IsUnder ops sections y = (op : ℕ) × IsSection op sections × Contains ops op y

Contains-child :
    (ops : Ops) (top op c : ℕ) (children : List ℕ)
    → Contains ops top op
    → get op ops ≡ some (composite children)
    → is_in c children ≡ true
    → Contains ops top c
Contains-child ops top _ c children itself e i = below e i itself
Contains-child ops top op c children (below e2 i2 more) e i =
    below e2 i2 (Contains-child ops _ op c children more e i)

found_last : Ops → List (Option ℕ) → Found
found_last ops sections = collect_sections (length ops) ops sections nothing_found

found_last-IsProper :
    (ops : Ops) (sections : List (Option ℕ))
    → IsProper ops (IsUnder ops sections) (found_last ops sections)
unfolding is_in found_last
found_last-IsProper ops sections =
    sections-IsProper ops (IsUnder ops sections)
      (λ op c children (top, section, under) e i.
        (top, section, Contains-child ops top op c children under e i))
      (length ops) sections nothing_found (λ op section. (op, section, itself))
      (record { leaf_seen = λ y i. cc; once = λ y. omega arith; good = λ y i. cc })

-- `get_leaf_ops` lists an operator exactly if it is a leaf that one of the sections contains, however
-- the operators share their children, and lists none twice.
pub get_leaf_ops_lem :
    (ops : Ops) (sections : List (Option ℕ)) (y : ℕ)
    → ((is_in y (get_leaf_ops ops sections) ≡ true) ↔ (IsUnder ops sections y × IsLeaf ops y))
      × (count y (get_leaf_ops ops sections) ≤ 1)
unfolding get_leaf_ops is_in found_last
get_leaf_ops_lem ops sections y =
    let is = found_last-IsProper ops sections in
    let (g, seen) = sections_walk (length ops) ops sections nothing_found (unseen_all ops []) in
    (
      (
        is.good y,
        λ ((top, section, under), (t, e)).
            collected ops (found_last ops sections)
              (λ z i. elim (g.closed z i) [ inl j ↦ cc | inr c ↦ c ]) top y t (seen top section)
              under e,
      ),
      is.once y,
    )
