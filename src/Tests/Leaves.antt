-- ===== src/Tests/Leaves.antt =====
-- A pipeline whose operators share a child.
use lattica_studio.Prelude.{String, ◌≡◌, ◌↔◌, ◌≤◌, refl, List, [], ◌∷◌, none, some, true}
use lattica_studio.Prelude.Dict.{number_eq, get}
use lattica_studio.Prelude.Count.{count}
use lattica_studio.Chain.{is_in}
use lattica_studio.Pipeline.{bootstrap, other, leaf, composite, Ops, collect, get_leaf_ops}
use lattica_studio.Result.{ok}
use lattica_studio.Torch.{Shape}
use lattica_studio.Pipeline.Inputs.{
  named, keys_of, name_in, all_in, input_shapes, check_custom, init_inputs, IsCovered, IsCustom,
  HasShapes, init_inputs_lem,
}
use lattica_studio.Pipeline.Exact.{IsLeaf, IsUnder, get_leaf_ops_lem}

abbrev ops : Ops
ops =
    (1, composite (2 ∷ 3 ∷ 2 ∷ []))
    ∷ (2, composite (4 ∷ 5 ∷ []))
    ∷ (3, leaf (other 7))
    ∷ (4, leaf bootstrap)
    ∷ (5, composite (3 ∷ 1 ∷ []))
    ∷ []

leaves_run : get_leaf_ops ops (none ∷ some 1 ∷ none ∷ []) ≡ 4 ∷ 3 ∷ []
unfolding get_leaf_ops collect is_in get
leaves_run = refl

get_leaf_ops_lem_example :
    ((is_in 4 (get_leaf_ops ops (none ∷ some 1 ∷ none ∷ [])) ≡ true)
      ↔ (IsUnder ops (none ∷ some 1 ∷ none ∷ []) 4 × IsLeaf ops 4))
    × (count 4 (get_leaf_ops ops (none ∷ some 1 ∷ none ∷ [])) ≤ 1)
get_leaf_ops_lem_example = get_leaf_ops_lem ops (none ∷ some 1 ∷ none ∷ []) 4

abbrev shapes : List (String × Shape)
shapes = ("x", 4 ∷ []) ∷ ("w", 8 ∷ []) ∷ []

inputs_run : init_inputs ("x" ∷ "w" ∷ []) (named shapes) ("w" ∷ []) [] ≡ ok ("x", shapes)
unfolding init_inputs input_shapes check_custom all_in name_in
inputs_run = refl

init_inputs_lem_example :
    (◌≡◌ {A = String} "x" "x")
    × HasShapes (named shapes) ("x" ∷ "w" ∷ []) shapes
    × IsCovered (keys_of shapes) ("x" ∷ "w" ∷ [])
    × IsCustom "x" ("w" ∷ []) shapes
    × IsCustom "x" [] shapes
init_inputs_lem_example =
    init_inputs_lem "x" "x" ("w" ∷ []) ("w" ∷ []) [] (named shapes) shapes inputs_run
