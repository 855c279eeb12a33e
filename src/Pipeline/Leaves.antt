-- ===== src/Pipeline/Leaves.antt =====
-- What `get_leaf_ops` of lattica_build_src/lattica_build/base_classes/hom_pipeline.py collects: every leaf
-- operator under the sections, once, and no other.
use lattica_studio.Prelude.{
  ℕ, zero, suc, ◌≤◌, ◌≡◌, refl, ap, sym, ◌∙◌, List, [], ◌∷◌, ◌++◌, Option, none, some, true, false,
  ◌==◌, Bool-cases, Option-cases, ◌⊎◌, inl, inr, arith, ==_iff,
}
use lattica_studio.Prelude.Dict.{number_eq, get}
use lattica_studio.Chain.{is_in}
use lattica_studio.Pipeline.{
  OpType, HomOp, leaf, composite, Ops, Found, collect_each, visit, collect, collect_sections,
}
use lattica_studio.Pipeline.Walk.{
  is_in-append, is_in-first, is_in-later, unseen, unseen_less, unseen_mono, IsSeen, IsDone,
  IsClosed, Grows, Grows-refl, Grows-trans, IsSeen-later, IsWalk, walk_each,
}

-- An operator that is marked as seen and is done at the end.
Grows-mark :
    (ops : Ops) (found after : Found) (op : ℕ) (node : HomOp) (leaves : List ℕ)
    → get op ops ≡ some node
    → ((y : ℕ) → is_in y found.leaves ≡ true → is_in y leaves ≡ true)
    → Grows ops (record { seen = op ∷ found.seen; leaves = leaves }) after
    → IsDone ops after op node
    → Grows ops found after × IsSeen ops after op
unfolding is_in
Grows-mark ops found after op node leaves e kept g done = (
  record {
    keeps_seen = λ y h. g.keeps_seen y (is_in-later y op found.seen h);
    keeps_leaves = λ y h. g.keeps_leaves y (kept y h);
    closed = λ y h. elim (g.closed y h) [
      | inl i ↦ elim (Bool-cases (op == y)) [
        | inl same ↦
            let is_op : op ≡ y = (==_iff op y).0 same in
            inr (node, ap (λ k. get k ops) (sym is_op) ∙ e, rw (sym is_op) done)
        | inr new ↦ inl (ground arith)
      ]
      | inr c ↦ inr c
    ];
  },
  inl (g.keeps_seen op (is_in-first op found.seen)),
)

visit_walk :
    (ops : Ops) (fuel op : ℕ) (found : Found) (node : Option HomOp) (go : ℕ → Found → Found)
    → IsWalk ops go fuel
    → get op ops ≡ node
    → is_in op found.seen ≡ false
    → unseen ops found.seen ≤ suc fuel
    → Grows ops found (visit (collect_each go) op false node found)
      × IsSeen ops (visit (collect_each go) op false node found) op
unfolding is_in
visit_walk ops fuel op found none go walk e i h = (Grows-refl ops found, inr e)
visit_walk ops fuel op found (some (leaf t)) go walk e i h =
    let after : Found = record { seen = op ∷ found.seen; leaves = found.leaves ++ op ∷ [] } in
    Grows-mark ops found after op (leaf t) after.leaves e
      (λ y i. ground (arith, is_in-append y found.leaves (op ∷ []))) (Grows-refl ops after)
      (ground (arith, is_in-append op found.leaves (op ∷ []), ==_iff op op))
visit_walk ops fuel op found (some (composite children)) go walk e i h =
    let middle : Found = record found { seen = op ∷ found.seen } in
    let l = unseen_less ops found.seen op (composite children) e i in
    let (g, seen) = walk_each ops go fuel walk children middle (omega arith) in
    Grows-mark ops found (collect_each go children middle) op (composite children) found.leaves e
      (λ y i. i) g seen

collect-IsWalk : (fuel : ℕ) (ops : Ops) → IsWalk ops (collect fuel ops) fuel
unfolding collect
collect-IsWalk zero ops op found h = (
  Grows-refl ops found,
  elim (Bool-cases (is_in op found.seen)) [
    | inl i ↦ inl i
    | inr i ↦ elim (Option-cases (get op ops)) [
      | inl e ↦ inr e
      | inr (node, e) ↦ let l = unseen_less ops found.seen op node e i in absurd (omega arith)
    ]
  ],
)
collect-IsWalk (suc fuel) ops op found h = elim (Bool-cases (is_in op found.seen)) [
  | inl i ↦ rw i (Grows-refl ops found, inl i)
  | inr i ↦ rw i (
      visit_walk ops fuel op found (get op ops) (collect fuel ops) (collect-IsWalk fuel ops) refl i
        h)
]

-- The operator of a section that is not None.
abbrev pub IsSection : ℕ → List (Option ℕ) → Type 0
IsSection op [] = ⊥
IsSection op (none ∷ sections) = IsSection op sections
IsSection op (some x ∷ sections) = (op ≡ x) ⊎ IsSection op sections

pub sections_walk :
    (fuel : ℕ) (ops : Ops) (sections : List (Option ℕ)) (found : Found)
    → unseen ops found.seen ≤ fuel
    → Grows ops found (collect_sections fuel ops sections found)
      × ((op : ℕ)
          → IsSection op sections
          → IsSeen ops (collect_sections fuel ops sections found) op)
sections_walk fuel ops [] found h = (Grows-refl ops found, λ op i. absurd i)
sections_walk fuel ops (none ∷ sections) found h = sections_walk fuel ops sections found h
sections_walk fuel ops (some x ∷ sections) found h =
    let (first, x_seen) = collect-IsWalk fuel ops x found h in
    let middle = collect fuel ops x found in
    let less = unseen_mono ops found.seen middle.seen first.keeps_seen in
    let (rest, others) = sections_walk fuel ops sections middle (omega arith) in
    let after = collect_sections fuel ops sections middle in
    (
      Grows-trans ops found middle after first rest,
      λ op i. elim i [
        | inl same ↦ rw same (IsSeen-later ops found middle after rest x x_seen)
        | inr more ↦ others op more
      ],
    )

-- The operators under an operator.
pub data Contains (ops : Ops) : ℕ → ℕ → Type 0 where
  itself : {op : ℕ} → Contains ops op op
  below :
      {op child y : ℕ} {children : List ℕ}
      → get op ops ≡ some (composite children)
      → is_in child children ≡ true
      → Contains ops child y
      → Contains ops op y

there :
    (ops : Ops) (op y : ℕ) (t : OpType)
    → Contains ops op y
    → get y ops ≡ some (leaf t)
    → get op ops ≡ none
    → ⊥
there ops op y t itself e n = cc
there ops op y t (below c i more) e n = cc

done_leaf :
    (ops : Ops) (found : Found) (op : ℕ) (t : OpType) (node : HomOp)
    → get op ops ≡ some node
    → get op ops ≡ some (leaf t)
    → IsDone ops found op node
    → is_in op found.leaves ≡ true
done_leaf ops found op t (leaf t') at e done = done
done_leaf ops found op t (composite children) at e done = cc

done_child :
    (ops : Ops) (found : Found) (op : ℕ) (children : List ℕ) (node : HomOp)
    → get op ops ≡ some node
    → get op ops ≡ some (composite children)
    → IsDone ops found op node
    → (c : ℕ) → is_in c children ≡ true
    → IsSeen ops found c
done_child ops found op children (leaf t) at e done = λ c i. cc
done_child ops found op children (composite cs) at e done = λ c i. done c (cc)

-- Where all that is seen is closed, every leaf under an operator that is seen is collected.
pub collected :
    (ops : Ops) (found : Found)
    → ((y : ℕ) → is_in y found.seen ≡ true → IsClosed ops found y)
    → (op y : ℕ) (t : OpType) → IsSeen ops found op
    → Contains ops op y
    → get y ops ≡ some (leaf t)
    → is_in y found.leaves ≡ true
collected ops found closed op y t (inr n) c e = absurd (there ops op y t c e n)
collected ops found closed op _ t (inl i) itself e =
    let (node, at, done) = closed op i in done_leaf ops found op t node at e done
collected ops found closed op y t (inl i) (below {child} {children} c is_child more) e =
    let (node, at, done) = closed op i in
    collected ops found closed child y t
      (done_child ops found op children node at c done child is_child) more e
