-- ===== src/Tracer.antt =====
-- lattica_build_src/lattica_build/base_classes/hom_op_tracer.py: the state that a trace keeps. The
-- graph as JSON is not modelled, and no `forward` body is: the operators' own rules are in other files.
pub mod LastUse
pub mod Custom
pub mod Tensors
use mathlib.Core.List.{reverse}
use lattica_studio.Prelude.{
  ℕ, zero, suc, ◌+◌, ◌≡◌, String, str_eq, List, [], ◌∷◌, ◌++◌, Option, none, some, Bool, true,
  false, not, ◌&&◌, ◌||◌, length, set, get_elem?, ltb, ◌==◌, if◌then◌else◌,
}
use lattica_studio.HomValue.{HomValue, post_init}

-- A recorded operator: the values it reads, the value it makes, and `input_last_uses`, which only
-- `finalize` sets.
pub record RecordedOp : Type 0 where
  pub inputs : List String
  pub output : String
  pub input_last_uses : List Bool

-- `value_id in seen`
abbrev pub seen_in : String → List String → Bool
seen_in x [] = false
seen_in x (y ∷ ys) = str_eq x y || seen_in x ys

-- The inner loop of `finalize`, on the ids in the order it meets them: the flags, and what is seen.
unfoldable pub mark_inputs : List String → List String → List Bool × List String
mark_inputs seen [] = ([], seen)
mark_inputs seen (value_id ∷ ids) =
    let (flags, seen') = mark_inputs (value_id ∷ seen) ids in
    (not (seen_in value_id seen) ∷ flags, seen')

-- The outer loop, on the operators in the order it meets them.
unfoldable pub mark_ops : List String → List RecordedOp → List RecordedOp
unfolding mark_inputs
mark_ops seen [] = []
mark_ops seen (op ∷ ops) =
    let (flags, seen') = mark_inputs seen (reverse op.inputs) in
    record op { input_last_uses = reverse flags } ∷ mark_ops seen' ops

-- Tracer.finalize
unfoldable pub finalize : List RecordedOp → List RecordedOp
unfolding mark_ops
finalize recorded_ops = reverse (mark_ops [] (reverse recorded_ops))

-- The key of a stored tensor: a decimal number, or a name that the verification data has stored.
pub data Ref : Type 0 where
  number : ℕ → Ref
  name : String → Ref

-- `stored_tensor is tensor`: a tensor is told by the number of its object.
unfoldable pub find_tensor : List (Ref × ℕ) → ℕ → Option Ref
find_tensor [] tensor = none
find_tensor ((ref, stored) ∷ tensors) tensor =
    let rest = find_tensor tensors tensor in if stored == tensor then some ref else rest

-- Tracer._register_tensor, on a tensor that is contiguous.
unfoldable pub register_tensor : List (Ref × ℕ) → ℕ → Ref × List (Ref × ℕ)
unfolding find_tensor
register_tensor tensors tensor = elim (find_tensor tensors tensor) [
  | some ref ↦ (ref, tensors)
  | none ↦ (number (length tensors), tensors ++ (number (length tensors), tensor) ∷ [])
]

-- The `data_ref` loop of `_serialize_leaf_op`.
unfoldable pub register_all : List (Ref × ℕ) → List ℕ → List Ref × List (Ref × ℕ)
unfolding register_tensor
register_all tensors [] = ([], tensors)
register_all tensors (tensor ∷ rest) =
    let (ref, tensors') = register_tensor tensors tensor in
    let (refs, tensors'') = register_all tensors' rest in (ref ∷ refs, tensors'')

-- `custom_input_values`
abbrev pub Values : Type 0 → Type 0
Values S = List (String × HomValue S)

abbrev pub same_id : Option String → Option String → Bool
same_id none none = true
same_id (some a) (some b) = str_eq a b
same_id none (some b) = false
same_id (some a) none = false

module _ {S : Type 0} where
  abbrev pub get : Values S → String → Option (HomValue S)
  get [] ref = none
  get ((r, v) ∷ vs) ref = if str_eq r ref then some v else get vs ref

  -- The first input with another id.
  unfoldable pub find_other : List (HomValue S) → HomValue S → Option (HomValue S)
  find_other [] input = none
  find_other (other ∷ others) input =
      let rest = find_other others input in if same_id other.id input.id then rest else some other

  -- `make_copy(active_rows=…, active_cols=…)`
  unfoldable pub with_levels_of : Option (HomValue S) → HomValue S → HomValue S
  unfolding post_init
  with_levels_of none input = input
  with_levels_of (some other) input =
      post_init (record input { active_rows = other.active_rows; active_cols = other.active_cols })

  -- One custom input of an operator, whose reference is `ref`: the input as the operator reads it, and
  -- the values. `inputs` are the operator's inputs as they stand.
  unfoldable pub resolve_custom :
      List (HomValue S) → HomValue S → String → Values S → HomValue S × Values S
  unfolding find_other with_levels_of post_init
  resolve_custom inputs input ref values = elim (get values ref) [
    | some source ↦ (post_init (record source { id = input.id }), values)
    | none ↦
        let first = with_levels_of (find_other inputs input) input in
        (first, (ref, post_init first) ∷ values)
  ]

  -- One input, with its reference.
  abbrev pub resolve_input :
      Option String → List (HomValue S) → HomValue S → Values S → HomValue S × Values S
  resolve_input none inputs input values = (input, values)
  resolve_input (some ref) inputs input values = resolve_custom inputs input ref values

  -- The loop over the inputs: `resolved` are those before the one at hand.
  unfoldable pub resolve_inputs :
      List (HomValue S) → List (HomValue S) → Values S → List (HomValue S) × Values S
  resolve_inputs resolved [] values = (resolved, values)
  resolve_inputs resolved (input ∷ inputs) values =
      let (input', values') =
        resolve_input input.custom_input_ref (resolved ++ input ∷ inputs) input values in
      resolve_inputs (resolved ++ input' ∷ []) inputs values'
