-- ===== src/Tracer/Custom.antt =====
-- The state of a custom input is set at its first occurrence and stays.
use lattica_studio.Prelude.{
  ◌≡◌, refl, String, str_eq, eq_iff, List, [], ◌∷◌, ◌++◌, Option, none, some, arith, Bool-cases,
  Option-cases, inl, inr,
}
use lattica_studio.HomValue.{HomValue, post_init}
use lattica_studio.Tracer.{
  Values, get, resolve_input, find_other, with_levels_of, resolve_custom, resolve_inputs,
}

module _ {S : Type 0} where
  -- Every value stored is still stored, unchanged.
  abbrev pub Keeps : Values S → Values S → Type 0
  Keeps values values' =
      (ref : String) (v : HomValue S) → get values ref ≡ some v → get values' ref ≡ some v

  custom-old :
      (inputs : List (HomValue S)) (input : HomValue S) (ref : String) (values : Values S)
      (source : HomValue S)
      → get values ref ≡ some source
      → resolve_custom inputs input ref values
        ≡ (post_init (record source { id = input.id }), values)
  unfolding resolve_custom
  custom-old inputs input ref values source e = rw (e, resolve_custom)

  custom-new :
      (inputs : List (HomValue S)) (input : HomValue S) (ref : String) (values : Values S)
      → get values ref ≡ none
      → let first = with_levels_of (find_other inputs input) input in
        resolve_custom inputs input ref values ≡ (first, (ref, post_init first) ∷ values)
  unfolding resolve_custom
  custom-new inputs input ref values e = rw (e, resolve_custom)

  get_self :
      (ref : String) (v : HomValue S) (values : Values S) → get ((ref, v) ∷ values) ref ≡ some v
  get_self ref v values = let same = (eq_iff ref ref).1 refl in ground arith

  get-other :
      (ref r : String) (v w : HomValue S) (values : Values S)
      → get values ref ≡ none
      → get values r ≡ some v
      → get ((ref, w) ∷ values) r ≡ some v
  get-other ref r v w values h h' = elim (Bool-cases (str_eq ref r)) [
    | inl e ↦ let same = (eq_iff ref r).0 e in cc
    | inr e ↦ ground arith
  ]

  resolve_custom-Keeps :
      (inputs : List (HomValue S)) (input : HomValue S) (ref : String) (values : Values S)
      → Keeps values (resolve_custom inputs input ref values).1
  resolve_custom-Keeps inputs input ref values r v h = elim (Option-cases (get values ref)) [
    | inl e ↦ rw (custom-new inputs input ref values e) (get-other ref r v _ values e h)
    | inr (s, e) ↦ rw (custom-old inputs input ref values s e) h
  ]

  resolve_input-Keeps :
      (o : Option String) (inputs : List (HomValue S)) (input : HomValue S) (values : Values S)
      → Keeps values (resolve_input o inputs input values).1
  resolve_input-Keeps none inputs input values r v h = h
  resolve_input-Keeps (some ref) inputs input values r v h =
      resolve_custom-Keeps inputs input ref values r v h

  resolve_inputs-Keeps :
      (resolved inputs : List (HomValue S)) (values : Values S)
      → Keeps values (resolve_inputs resolved inputs values).1
  unfolding resolve_inputs
  resolve_inputs-Keeps resolved [] values r v h = h
  resolve_inputs-Keeps resolved (input ∷ inputs) values r v h =
      let all = resolved ++ input ∷ inputs in
      let one = resolve_input input.custom_input_ref all input values in
      resolve_inputs-Keeps (resolved ++ one.0 ∷ []) inputs one.1 r v
        (resolve_input-Keeps input.custom_input_ref all input values r v h)

  custom-stored :
      (inputs : List (HomValue S)) (input : HomValue S) (ref : String) (values : Values S)
      → (stored : HomValue S) × (get (resolve_custom inputs input ref values).1 ref ≡ some stored)
  custom-stored inputs input ref values = elim (Option-cases (get values ref)) [
    | inl e ↦ (
      post_init (with_levels_of (find_other inputs input) input),
      rw (custom-new inputs input ref values e)
          (get_self ref (post_init (with_levels_of (find_other inputs input) input)) values),
    )
    | inr (s, e) ↦ (s, rw (custom-old inputs input ref values s e) e)
  ]

  -- Reading a custom input leaves a value under its reference. Every later reading under that reference,
  -- after the inputs of any other operator, gives the operator this value with its own id, and
  -- changes nothing: the shape, the slot axis, the active rows and columns and the scale stay.
  pub custom_input_stays :
      (inputs before later others : List (HomValue S)) (input again : HomValue S) (ref : String)
      (values : Values S)
      → let values' = (resolve_custom inputs input ref values).1 in
        let values'' = (resolve_inputs before later values').1 in
        (stored : HomValue S) × (get values' ref ≡ some stored)
        × (resolve_custom others again ref values''
            ≡ (post_init (record stored { id = again.id }), values''))
  custom_input_stays inputs before later others input again ref values =
      let (stored, at) = custom-stored inputs input ref values in
      let values' = (resolve_custom inputs input ref values).1 in
      (
        stored,
        at,
        custom-old others again ref (resolve_inputs before later values').1 stored
            (resolve_inputs-Keeps before later values' ref stored at),
      )
