-- ===== src/Pipeline.antt =====
-- HomomorphicPipeline of lattica_build_src/lattica_build/base_classes/hom_pipeline.py: the names of the
-- inputs, and the leaf operators. An operator object has a number, its `id`.
pub mod Walk
pub mod Leaves
pub mod Exact
pub mod SetUp
pub mod Bootstraps
pub mod BootRows
pub mod Served
pub mod Inputs
use lattica_studio.Prelude.{
  ℕ, zero, suc, String, List, [], ◌∷◌, ◌++◌, Option, none, some, Bool, true, false, not, ◌||◌,
  length, if◌then◌else◌,
}
use lattica_studio.Prelude.Dict.{number_eq, string_eq, get}
use lattica_studio.Result.{
  Result, ok, err, value_error, index_error, raise_if, or_raise, ◌>>=◌, ◌>>◌,
}
use lattica_studio.Torch.{Shape}
use lattica_studio.Chain.{is_in}

-- OP_TYPE of a leaf: the two types that the pipeline asks for, a ring switch with its `log_n_subring`, and
-- the rest by their number.
pub data OpType : Type 0 where
  bootstrap : OpType
  ring_switch : ℕ → OpType
  other : ℕ → OpType

-- An operator: a leaf, or the children of a composite in the order of `op.ops` or of its attributes.
pub data HomOp : Type 0 where
  leaf : OpType → HomOp
  composite : List ℕ → HomOp

abbrev pub Ops : Type 0
Ops = List (ℕ × HomOp)

-- The variables of `get_leaf_ops`.
pub record Found : Type 0 where
  pub seen : List ℕ
  pub leaves : List ℕ

abbrev pub collect_each : (ℕ → Found → Found) → List ℕ → Found → Found
collect_each go [] found = found
collect_each go (child ∷ children) found = collect_each go children (go child found)

-- `collect` of an operator that may be seen or None, with the loop over its children.
abbrev pub visit : (List ℕ → Found → Found) → ℕ → Bool → Option HomOp → Found → Found
visit go op true _ found = found
visit go op false none found = found
visit go op false (some (leaf t)) found = record {
  seen = op ∷ found.seen;
  leaves = found.leaves ++ op ∷ [];
}
visit go op false (some (composite children)) found =
    go children (record found { seen = op ∷ found.seen })

-- `collect`
unfoldable pub collect : ℕ → Ops → ℕ → Found → Found
unfolding is_in get
collect zero ops op found = found
collect (suc fuel) ops op found =
    visit (collect_each (collect fuel ops)) op (is_in op found.seen) (get op ops) found

abbrev pub collect_sections : ℕ → Ops → List (Option ℕ) → Found → Found
collect_sections fuel ops [] found = found
collect_sections fuel ops (none ∷ sections) found = collect_sections fuel ops sections found
collect_sections fuel ops (some op ∷ sections) found =
    collect_sections fuel ops sections (collect fuel ops op found)

abbrev pub nothing_found : Found
nothing_found = record { seen = []; leaves = [] }

-- `get_leaf_ops`, of the operators of the sections. Each descent sees one more operator, so their number
-- is enough fuel.
unfoldable pub get_leaf_ops : Ops → List (Option ℕ) → List ℕ
unfolding collect
get_leaf_ops ops sections = (collect_sections (length ops) ops sections nothing_found).leaves
