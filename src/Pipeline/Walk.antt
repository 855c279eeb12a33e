-- ===== src/Pipeline/Walk.antt =====
-- A walk of `get_leaf_ops` of lattica_build_src/lattica_build/base_classes/hom_pipeline.py sees the children of
-- all it has seen, with as much fuel as there are operators unseen.
use lattica_studio.Prelude.{
  ℕ, suc, ◌≤◌, ◌<◌, ◌≡◌, refl, ap, sym, ◌∙◌, List, [], ◌∷◌, ◌++◌, none, some, true, false, ◌==◌,
  if◌then◌else◌, Bool-cases, ◌⊎◌, inl, inr, arith, length, ==_iff,
}
use lattica_studio.Prelude.Dict.{number_eq, get}
use lattica_studio.Chain.{is_in}
use lattica_studio.Pipeline.{HomOp, leaf, composite, Ops, Found, collect_each}

pub is_in-append :
    (y : ℕ) (xs ys : List ℕ) → is_in y (xs ++ ys) ≡ (if is_in y xs then true else is_in y ys)
unfolding is_in
is_in-append y [] ys = refl
is_in-append y (x ∷ xs) ys = ground (arith, is_in-append y xs ys)

-- The number of operators that are not seen.
unfoldable pub unseen : Ops → List ℕ → ℕ
unfolding is_in
unseen [] seen = 0
unseen ((op, node) ∷ ops) seen = if is_in op seen then unseen ops seen else suc (unseen ops seen)

pub unseen_all : (ops : Ops) (seen : List ℕ) → unseen ops seen ≤ length ops
unfolding unseen
unseen_all [] seen = omega arith
unseen_all ((op, node) ∷ ops) seen = ground (arith, unseen_all ops seen)

pub unseen_mono :
    (ops : Ops) (seen seen' : List ℕ)
    → ((y : ℕ) → is_in y seen ≡ true → is_in y seen' ≡ true)
    → unseen ops seen' ≤ unseen ops seen
unfolding unseen
unseen_mono [] seen seen' h = omega arith
unseen_mono ((op, node) ∷ ops) seen seen' h = ground (arith, h op, unseen_mono ops seen seen' h)

pub is_in-later : (y op : ℕ) (seen : List ℕ) → is_in y seen ≡ true → is_in y (op ∷ seen) ≡ true
unfolding is_in
is_in-later y op seen h = ground arith

pub is_in-first : (op : ℕ) (seen : List ℕ) → is_in op (op ∷ seen) ≡ true
unfolding is_in
is_in-first op seen = ground (arith, ==_iff op op)

pub unseen_less :
    (ops : Ops) (seen : List ℕ) (op : ℕ) (node : HomOp)
    → get op ops ≡ some node
    → is_in op seen ≡ false
    → unseen ops (op ∷ seen) < unseen ops seen
unfolding unseen get
unseen_less [] seen op node e h = cc
unseen_less ((key, n) ∷ ops) seen op node e h = elim (Bool-cases (key == op)) [
  | inl same ↦
      let is_op : key ≡ op = (==_iff key op).0 same in
      let not_seen : is_in key seen ≡ false = ap (λ k. is_in k seen) is_op ∙ h in
      let more = unseen_mono ops seen (op ∷ seen) (λ y. is_in-later y op seen) in
      ground (arith, ==_iff op key)
  | inr other ↦
      let rest = unseen_less ops seen op node (ground arith) h in
      ground (arith, ==_iff op key, ==_iff key op)
]

-- Either seen or no operator at all.
abbrev pub IsSeen : Ops → Found → ℕ → Type 0
IsSeen ops found y = (is_in y found.seen ≡ true) ⊎ (get y ops ≡ none)

-- A leaf that is collected, or a composite whose children are seen.
abbrev pub IsDone : Ops → Found → ℕ → HomOp → Type 0
IsDone ops found y (leaf t) = is_in y found.leaves ≡ true
IsDone ops found y (composite children) = (c : ℕ) → is_in c children ≡ true → IsSeen ops found c

abbrev pub IsClosed : Ops → Found → ℕ → Type 0
IsClosed ops found y = (node : HomOp) × (get y ops ≡ some node) × IsDone ops found y node

-- What a walk adds, from `before` to `after`.
pub record Grows (ops : Ops) (before after : Found) : Type 0 where
  pub keeps_seen : (y : ℕ) → is_in y before.seen ≡ true → is_in y after.seen ≡ true
  pub keeps_leaves : (y : ℕ) → is_in y before.leaves ≡ true → is_in y after.leaves ≡ true
  pub closed :
      (y : ℕ) → is_in y after.seen ≡ true → (is_in y before.seen ≡ true) ⊎ IsClosed ops after y

pub Grows-refl : (ops : Ops) (found : Found) → Grows ops found found
Grows-refl ops found = record {
  keeps_seen = λ y h. h;
  keeps_leaves = λ y h. h;
  closed = λ y h. inl h;
}

module _ (ops : Ops) (before middle after : Found) where
  pub IsSeen-later : Grows ops middle after → (y : ℕ) → IsSeen ops middle y → IsSeen ops after y
  IsSeen-later g y (inl h) = inl (g.keeps_seen y h)
  IsSeen-later g y (inr e) = inr e

  IsDone-later :
      Grows ops middle after
      → (y : ℕ) (node : HomOp) → IsDone ops middle y node
      → IsDone ops after y node
  IsDone-later g y (leaf t) h = g.keeps_leaves y h
  IsDone-later g y (composite children) h = λ c i. IsSeen-later g c (h c i)

  pub Grows-trans : Grows ops before middle → Grows ops middle after → Grows ops before after
  Grows-trans f g = record {
    keeps_seen = λ y h. g.keeps_seen y (f.keeps_seen y h);
    keeps_leaves = λ y h. g.keeps_leaves y (f.keeps_leaves y h);
    closed = λ y h. elim (g.closed y h) [
      | inl i ↦ elim (f.closed y i) [
        | inl j ↦ inl j
        | inr (node, e, d) ↦ inr (node, e, IsDone-later g y node d)
      ]
      | inr c ↦ inr c
    ];
  }

-- A walk with enough fuel: it sees its operator, and whatever else it adds is closed.
abbrev pub IsWalk : Ops → (ℕ → Found → Found) → ℕ → Type 0
IsWalk ops go fuel =
    (op : ℕ) (found : Found)
    → unseen ops found.seen ≤ fuel
    → Grows ops found (go op found) × IsSeen ops (go op found) op

pub walk_each :
    (ops : Ops) (go : ℕ → Found → Found) (fuel : ℕ)
    → IsWalk ops go fuel
    → (children : List ℕ) (found : Found) → unseen ops found.seen ≤ fuel
    → Grows ops found (collect_each go children found)
      × ((c : ℕ) → is_in c children ≡ true → IsSeen ops (collect_each go children found) c)
unfolding is_in
walk_each ops go fuel walk [] found h = (Grows-refl ops found, λ c i. cc)
walk_each ops go fuel walk (child ∷ children) found h =
    let (first, child_seen) = walk child found h in
    let less = unseen_mono ops found.seen (go child found).seen first.keeps_seen in
    let (rest, others) = walk_each ops go fuel walk children (go child found) (omega arith) in
    let after = collect_each go children (go child found) in
    (
      Grows-trans ops found (go child found) after first rest,
      λ c i. elim (Bool-cases (child == c)) [
        | inl same ↦
            let is_child : child ≡ c = (==_iff child c).0 same in
            rw (sym is_child) (IsSeen-later ops found (go child found) after rest child child_seen)
        | inr other ↦ others c (ground arith)
      ],
    )
