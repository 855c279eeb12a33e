-- ===== src/Pipeline/Inputs.antt =====
-- The checks of HomomorphicPipeline.__post_init__ of
-- lattica_build_src/lattica_build/base_classes/hom_pipeline.py on the names of the inputs.
use lattica_studio.Prelude.{
  String, str_eq, eq_iff, ◌≡◌, ap, ◌∙◌, List, [], ◌∷◌, Bool, true, false, not, ◌&&◌, Bool-cases,
  inl, inr, arith, ◌||◌,
}
use lattica_studio.Result.{
  Result, ok, err, value_error, index_error, raise_if, ◌>>=◌, ◌>>◌, >>=-eq-ok,
}
use lattica_studio.Torch.{Shape}

-- `input_shape`: one shape, or a dict from the inputs' names.
pub data InputShape : Type 0 where
  one : Shape → InputShape
  named : List (String × Shape) → InputShape

abbrev pub keys_of : List (String × Shape) → List String
keys_of [] = []
keys_of ((name, shape) ∷ shapes) = name ∷ keys_of shapes

unfoldable pub name_in : String → List String → Bool
name_in x [] = false
name_in x (name ∷ names) = str_eq x name || name_in x names

-- No name of the first list is missing in the second.
unfoldable pub all_in : List String → List String → Bool
unfolding name_in
all_in [] names = true
all_in (x ∷ xs) names = name_in x names && all_in xs names

-- `self.input_shape`, as a dict
unfoldable pub input_shapes : String → List String → InputShape → Result (List (String × Shape))
unfolding all_in
input_shapes primary names (one shape) = ok ((primary, shape) ∷ [])
input_shapes primary names (named shapes) = do
  raise_if (not (all_in (keys_of shapes) names)) value_error
  raise_if (not (all_in names (keys_of shapes))) value_error
  ok shapes

-- The checks of `custom_scales`, and those of `custom_n_slots`.
unfoldable pub check_custom : String → List String → List String → Result (Unit {0})
unfolding all_in
check_custom primary custom inputs = do
  raise_if (name_in primary custom) value_error
  raise_if (not (all_in custom inputs)) value_error

-- `__post_init__` on the parameters of `hom.forward`: the primary input's name and the shapes.
unfoldable pub init_inputs :
    List String → InputShape → List String → List String → Result (String × List (String × Shape))
unfolding input_shapes check_custom
init_inputs [] input_shape custom_scales custom_n_slots = err index_error
init_inputs (primary ∷ others) input_shape custom_scales custom_n_slots = do
  shapes ← input_shapes primary (primary ∷ others) input_shape
  check_custom primary custom_scales (keys_of shapes)
  check_custom primary custom_n_slots (keys_of shapes)
  ok (primary, shapes)

-- Every name of the first list is in the second.
abbrev pub IsCovered : List String → List String → Type 0
IsCovered xs names = (x : String) → name_in x xs ≡ true → name_in x names ≡ true

all_in-IsCovered : (xs names : List String) → all_in xs names ≡ true → IsCovered xs names
unfolding all_in
all_in-IsCovered [] names h x i = cc
all_in-IsCovered (y ∷ xs) names h x i = elim (Bool-cases (str_eq x y)) [
  | inl same ↦
      let is_y : x ≡ y = (eq_iff x y).0 same in
      let first : name_in y names ≡ true = ground arith in ap (λ z. name_in z names) is_y ∙ first
  | inr other ↦ all_in-IsCovered xs names (ground arith) x (ground arith)
]

-- The names of a custom setting: inputs that have a shape, without the primary one.
abbrev pub IsCustom : String → List String → List (String × Shape) → Type 0
IsCustom primary custom shapes =
    (name_in primary custom ≡ false) × IsCovered custom (keys_of shapes)

-- All inputs have a shape, or, with one shape given, the primary one has.
abbrev pub HasShapes : InputShape → List String → List (String × Shape) → Type 0
HasShapes (one shape) names shapes = shapes ≡ (elim names [ [] ↦ [] | ◌∷◌ n ns ↦ (n, shape) ∷ [] ])
HasShapes (named given) names shapes = (shapes ≡ given) × IsCovered names (keys_of shapes)

check_custom-ok :
    (primary : String) (custom : List String) (shapes : List (String × Shape)) (u : Unit {0})
    → check_custom primary custom (keys_of shapes) ≡ ok u
    → IsCustom primary custom shapes
unfolding check_custom
check_custom-ok primary custom shapes u h = elim (Bool-cases (name_in primary custom)) [
  | inl e ↦ ground arith
  | inr e ↦ elim (Bool-cases (all_in custom (keys_of shapes))) [
    | inl e2 ↦ (e, all_in-IsCovered custom (keys_of shapes) e2)
    | inr e2 ↦ ground arith
  ]
]

input_shapes-ok :
    (primary : String) (others : List String) (input_shape : InputShape)
    (shapes : List (String × Shape))
    → input_shapes primary (primary ∷ others) input_shape ≡ ok shapes
    → HasShapes input_shape (primary ∷ others) shapes
      × IsCovered (keys_of shapes) (primary ∷ others)
unfolding input_shapes name_in
input_shapes-ok primary others (one shape) shapes h =
    let same : shapes ≡ (primary, shape) ∷ [] = cc in (same, rw same (λ x i. ground arith))
input_shapes-ok primary others (named given) shapes h =
    let names = primary ∷ others in
    elim (Bool-cases (all_in (keys_of given) names)) [
      | inr e ↦ ground arith
      | inl e ↦ elim (Bool-cases (all_in names (keys_of given))) [
        | inr e2 ↦ ground arith
        | inl e2 ↦
            let same : shapes ≡ given = ground arith in
            (
              (same, rw same (all_in-IsCovered names (keys_of given) e2)),
              rw same (all_in-IsCovered (keys_of given) names e),
            )
      ]
    ]

-- A constructor that returns gives a shape, from its argument, to every input of `hom.forward` or, where
-- the argument is one shape, to the primary one, and to no other name; and custom scales and slot
-- counts only to inputs that have a shape and are not the primary one.
pub init_inputs_lem :
    (primary p : String) (others custom_scales custom_n_slots : List String)
    (input_shape : InputShape) (shapes : List (String × Shape))
    → init_inputs (primary ∷ others) input_shape custom_scales custom_n_slots ≡ ok (p, shapes)
    → (p ≡ primary)
      × HasShapes input_shape (primary ∷ others) shapes
      × IsCovered (keys_of shapes) (primary ∷ others)
      × IsCustom primary custom_scales shapes
      × IsCustom primary custom_n_slots shapes
unfolding init_inputs
init_inputs_lem primary p others custom_scales custom_n_slots input_shape shapes h =
    let (given, e, h1) = >>=-eq-ok (input_shapes primary (primary ∷ others) input_shape) _ h in
    let (u, e2, h2) = >>=-eq-ok (check_custom primary custom_scales (keys_of given)) _ h1 in
    let (u', e3, h3) = >>=-eq-ok (check_custom primary custom_n_slots (keys_of given)) _ h2 in
    let same : given ≡ shapes = cc in
    let (has, covered) = input_shapes-ok primary others input_shape given e in
    (
      cc,
      rw same at has,
      rw same at covered,
      rw same at (check_custom-ok primary custom_scales given u e2),
      rw same at (check_custom-ok primary custom_n_slots given u' e3),
    )
