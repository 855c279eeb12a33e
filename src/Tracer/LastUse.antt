-- ===== src/Tracer/LastUse.antt =====
-- Which uses `finalize` flags.
use mathlib.Core.List.{reverse, reverse-cons, reverse-reverse, append_assoc}
use lattica_studio.Prelude.{
  ℕ, ◌+◌, ◌≡◌, refl, sym, ap, ◌∙◌, String, str_eq, eq_iff, List, [], ◌∷◌, ◌++◌, Bool, true, not,
  ◌&&◌, ◌||◌, arith, Bool-cases, inl, inr, if◌then◌else◌,
}
use lattica_studio.Tracer.{RecordedOp, seen_in, mark_inputs, mark_ops, finalize}

-- The ids that the operators read, in order.
abbrev pub uses : List RecordedOp → List String
uses [] = []
uses (op ∷ ops) = op.inputs ++ uses ops

-- A use is a last use if its id does not occur after it; `after` is what follows the list.
abbrev pub last_uses : List String → List String → List Bool
last_uses [] after = []
last_uses (x ∷ xs) after = not (seen_in x (xs ++ after)) ∷ last_uses xs after

-- Each operator with the flags of its uses.
abbrev pub with_last_uses : List RecordedOp → List String → List RecordedOp
with_last_uses [] after = []
with_last_uses (op ∷ ops) after =
    record op { input_last_uses = last_uses op.inputs (uses ops ++ after) }
    ∷ with_last_uses ops after

mark-append :
    (seen a b : List String)
    → mark_inputs seen (a ++ b) ≡ (
      (mark_inputs seen a).0 ++ (mark_inputs (mark_inputs seen a).1 b).0,
      (mark_inputs (mark_inputs seen a).1 b).1,
    )
unfolding mark_inputs
mark-append seen [] b = refl
mark-append seen (x ∷ a) b = rw (mark-append (x ∷ seen) a b)

mark-reverse :
    (seen ids : List String)
    → mark_inputs seen (reverse ids) ≡ (reverse (last_uses ids seen), ids ++ seen)
unfolding mark_inputs
mark-reverse seen [] = refl
mark-reverse seen (x ∷ ids) = rw (
  reverse-cons x ids,
  mark-append seen (reverse ids) (x ∷ []),
  mark-reverse seen ids,
  reverse-cons (not (seen_in x (ids ++ seen))) (last_uses ids seen),
)

-- What is seen after the operators.
abbrev seen_after : List String → List RecordedOp → List String
seen_after seen [] = seen
seen_after seen (op ∷ ops) = seen_after (op.inputs ++ seen) ops

mark_ops-cons :
    (seen : List String) (op : RecordedOp) (ops : List RecordedOp)
    → mark_ops seen (op ∷ ops)
      ≡ record op { input_last_uses = last_uses op.inputs seen } ∷ mark_ops (op.inputs ++ seen) ops
unfolding mark_ops
mark_ops-cons seen op ops =
    rw (mark-reverse seen op.inputs, reverse-reverse (last_uses op.inputs seen))

mark_ops-nil : (seen : List String) → mark_ops seen [] ≡ []
unfolding mark_ops
mark_ops-nil seen = refl

mark_ops-snoc :
    (seen : List String) (a : List RecordedOp) (op : RecordedOp)
    → mark_ops seen (a ++ op ∷ [])
      ≡ mark_ops seen a
        ++ record op { input_last_uses = last_uses op.inputs (seen_after seen a) } ∷ []
mark_ops-snoc seen [] op =
    mark_ops-cons seen op [] ∙ rw (mark_ops-nil (op.inputs ++ seen), mark_ops-nil seen)
mark_ops-snoc seen (o ∷ a) op = rw (
  mark_ops-cons seen o (a ++ op ∷ []),
  mark_ops-cons seen o a,
  mark_ops-snoc (o.inputs ++ seen) a op,
)

seen_after-snoc :
    (seen : List String) (a : List RecordedOp) (op : RecordedOp)
    → seen_after seen (a ++ op ∷ []) ≡ op.inputs ++ seen_after seen a
seen_after-snoc seen [] op = refl
seen_after-snoc seen (o ∷ a) op = seen_after-snoc (o.inputs ++ seen) a op

seen_after-reverse :
    (seen : List String) (ops : List RecordedOp) → seen_after seen (reverse ops) ≡ uses ops ++ seen
seen_after-reverse seen [] = refl
seen_after-reverse seen (op ∷ ops) = rw (
  reverse-cons op ops,
  seen_after-snoc seen (reverse ops) op,
  seen_after-reverse seen ops,
  append_assoc op.inputs (uses ops) seen,
)

mark_ops-reverse :
    (seen : List String) (ops : List RecordedOp)
    → mark_ops seen (reverse ops) ≡ reverse (with_last_uses ops seen)
mark_ops-reverse seen [] = mark_ops-nil seen
mark_ops-reverse seen (op ∷ ops) = rw (
  reverse-cons op ops,
  mark_ops-snoc seen (reverse ops) op,
  mark_ops-reverse seen ops,
  seen_after-reverse seen ops,
  reverse-cons (record op { input_last_uses = last_uses op.inputs (uses ops ++ seen) })
      (with_last_uses ops seen),
)

-- `finalize` keeps every recorded operator in its place and flags an input as the last use of its value
-- exactly if the id is neither among the later inputs of the same operator nor an input of a later one.
pub finalize-last_uses : (ops : List RecordedOp) → finalize ops ≡ with_last_uses ops []
unfolding finalize
finalize-last_uses ops =
    ap reverse (mark_ops-reverse [] ops) ∙ reverse-reverse (with_last_uses ops [])

-- How often `x` is used with the flag set.
abbrev pub flagged : String → List String → List Bool → ℕ
flagged x [] flags = 0
flagged x (y ∷ ys) [] = 0
flagged x (y ∷ ys) (flag ∷ flags) = (if str_eq x y && flag then 1 else 0) + flagged x ys flags

abbrev pub flagged_ops : String → List RecordedOp → ℕ
flagged_ops x [] = 0
flagged_ops x (op ∷ ops) = flagged x op.inputs op.input_last_uses + flagged_ops x ops

seen_in-append :
    (x : String) (a b : List String) → seen_in x (a ++ b) ≡ (seen_in x a || seen_in x b)
seen_in-append x [] b = refl
seen_in-append x (y ∷ a) b = ground (arith, seen_in-append x a b)

seen_in-eq : (x y : String) (l : List String) → str_eq x y ≡ true → seen_in y l ≡ seen_in x l
seen_in-eq x y l h = let e = (eq_iff x y).0 h in ap (λ z. seen_in z l) (sym e)

abbrev once : Bool → Bool → ℕ
once used later = if used && not later then 1 else 0

flagged-last_uses :
    (x : String) (ids after : List String)
    → flagged x ids (last_uses ids after) ≡ once (seen_in x ids) (seen_in x after)
flagged-last_uses x [] after = refl
flagged-last_uses x (y ∷ ids) after =
    let more = flagged-last_uses x ids after in
    let split = seen_in-append x ids after in
    elim (Bool-cases (str_eq x y)) [
      | inl e ↦ let same = seen_in-eq x y (ids ++ after) e in ground arith
      | inr e ↦ ground arith
    ]

flagged-with_last_uses :
    (x : String) (ops : List RecordedOp) (after : List String)
    → flagged_ops x (with_last_uses ops after) ≡ once (seen_in x (uses ops)) (seen_in x after)
flagged-with_last_uses x [] after = refl
flagged-with_last_uses x (op ∷ ops) after =
    let more = flagged-with_last_uses x ops after in
    let here = flagged-last_uses x op.inputs (uses ops ++ after) in
    let split = seen_in-append x (uses ops) after in
    let split' = seen_in-append x op.inputs (uses ops) in ground arith

-- After `finalize` every value that some operator reads has exactly one use flagged as its last, and a
-- value that none reads has none.
pub finalize_once :
    (ops : List RecordedOp) (x : String)
    → flagged_ops x (finalize ops) ≡ (if seen_in x (uses ops) then 1 else 0)
finalize_once ops x =
    ap (flagged_ops x) (finalize-last_uses ops) ∙ flagged-with_last_uses x ops [] ∙ ground arith
