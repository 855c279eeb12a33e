-- ===== src/Chain.antt =====
-- `ModulusChain` of lattica_build_src/lattica_build/params/level_and_scale_tracing.py: the rows of
-- primes that the sections of a pipeline use.
pub mod Sections
pub mod Factors
pub mod Base
use lattica_studio.Prelude.{
  ℕ, zero, suc, ◌+◌, ◌-◌, ◌≡◌, List, [], ◌∷◌, ◌++◌, Option, none, some, Bool, true, false, not, map,
  length, drop, replicate, get_elem?, ltb, ◌==◌, if◌then◌else◌,
}
use lattica_studio.Result.{
  Result, ok, err, value_error, index_error, key_error, runtime_error, type_error, raise_if,
  or_raise, ◌>>=◌, ◌>>◌,
}
use lattica_studio.Primes.{QList, get_primes_from_precisions_list}
use lattica_studio.Primes.Pool.{Pools}
use lattica_studio.Bootstrap.{BootstrappingParams, max_of}
use lattica_studio.Params.{HomParams, bootstrapping}

pub data SectionName : Type 0 where
  pipeline boot_cts boot_eval boot_stc boot_base special_primes : SectionName

abbrev pub code : SectionName → ℕ
code pipeline = 0
code boot_cts = 1
code boot_eval = 2
code boot_stc = 3
code boot_base = 4
code special_primes = 5

abbrev pub same_section : SectionName → SectionName → Bool
same_section a b = code a == code b

abbrev pub boot_sections : Option BootstrappingParams → List (SectionName × QList)
boot_sections none = []
boot_sections (some b) =
    (boot_cts, b.cts_q_list_precision)
    ∷ (boot_eval, b.eval_mod_q_list_precision)
    ∷ (boot_stc, b.stc_q_list_precision)
    ∷ (boot_base, (b.q_base_precision ∷ []) ∷ [])
    ∷ []

-- `_set_pipeline_sections`
unfoldable pub mod_chain_sections : HomParams → List (SectionName × QList)
mod_chain_sections p =
    (pipeline, p.full_q_list_precision)
    ∷ (boot_sections p.boot_params
        ++ (special_primes, replicate p.num_special_primes (61 ∷ [])) ∷ [])

-- `list(range(start, start + n))`
abbrev pub range_from : ℕ → ℕ → List ℕ
range_from start zero = []
range_from start (suc n) = start ∷ range_from (suc start) n

-- The loop over the sections, at `current_row`.
unfoldable pub section_rows_from : ℕ → List (SectionName × QList) → List (SectionName × List ℕ)
section_rows_from current_row [] = []
section_rows_from current_row ((name, q_list) ∷ sections) =
    (name, range_from current_row (length q_list))
    ∷ section_rows_from (current_row + length q_list) sections

unfoldable pub full_q_list_of : List (SectionName × QList) → QList
full_q_list_of [] = []
full_q_list_of ((_, q_list) ∷ sections) = q_list ++ full_q_list_of sections

-- One row of `full_active_cols`: ones, then zeros up to the widest row.
abbrev pub active_row : ℕ → List ℕ → List ℕ
active_row max_num_cols row = replicate (length row) 1 ++ replicate (max_num_cols - length row) 0

unfoldable pub rows_of : SectionName → List (SectionName × List ℕ) → Option (List ℕ)
rows_of name [] = none
rows_of name ((other, rows) ∷ sections) =
    if same_section other name then some rows else rows_of name sections

-- The entries of a list at some rows.
unfoldable pub gather {ℓ} : {A : Type ℓ} → List A → List ℕ → Result (List A)
gather xs [] = ok []
gather xs (row ∷ rows) = do
  x ← or_raise (get_elem? xs row) index_error
  rest ← gather xs rows
  ok (x ∷ rest)

unfoldable pub is_in : ℕ → List ℕ → Bool
is_in row [] = false
is_in row (r ∷ rows) = if r == row then true else is_in row rows

unfoldable pub without : List ℕ → List ℕ → List ℕ
without base [] = []
without base (row ∷ rows) =
    let rest = without base rows in if is_in row base then rest else row ∷ rest

-- `dict(zip(order, primes))[row]`
unfoldable pub drawn_at : ℕ → List ℕ → List (List ℕ) → Option (List ℕ)
drawn_at row (r ∷ order) (fs ∷ primes) = if r == row then some fs else drawn_at row order primes
drawn_at row _ _ = none

unfoldable pub drawn_rows : List ℕ → List (List ℕ) → List ℕ → Result (List (List ℕ))
drawn_rows order primes [] = ok []
drawn_rows order primes (row ∷ rows) = do
  fs ← or_raise (drawn_at row order primes) key_error
  rest ← drawn_rows order primes rows
  ok (fs ∷ rest)

abbrev pub base_rows_of : List (SectionName × List ℕ) → List ℕ
base_rows_of sections = elim (rows_of boot_base sections) [ none ↦ [] | some rows ↦ rows ]

-- The rows in the order in which their primes are drawn, the bootstrap base first.
unfoldable pub draw_order : List (SectionName × List ℕ) → ℕ → List ℕ
draw_order section_rows num_rows =
    let base_rows = base_rows_of section_rows in
    base_rows ++ without base_rows (range_from 0 num_rows)

unfoldable pub factors_of : Pools → List (SectionName × List ℕ) → QList → Result (List (List ℕ))
factors_of pools section_rows full_q_list = do
  let order = draw_order section_rows (length full_q_list)
  qs ← gather full_q_list order
  primes ← get_primes_from_precisions_list pools qs
  drawn_rows order primes (range_from 0 (length full_q_list))

pub record ModulusChain : Type 0 where
  pub section_rows : List (SectionName × List ℕ)
  pub full_q_list : QList
  pub max_num_cols : ℕ
  pub num_rows : ℕ
  pub full_active_rows : List ℕ
  pub full_active_cols : List (List ℕ)
  pub factors_per_row : List (List ℕ)
  pub drop_order : List ℕ

-- The constructor; `max` of no row raises.
unfoldable pub make_chain : Pools → HomParams → Result ModulusChain
make_chain pools p = do
  let sections = mod_chain_sections p
  let section_rows = section_rows_from 0 sections
  let full_q_list = full_q_list_of sections
  max_num_cols ← or_raise (max_of (map (length {A = ℕ}) full_q_list)) runtime_error
  factors_per_row ← factors_of pools section_rows full_q_list
  ok (record {
    section_rows = section_rows;
    full_q_list = full_q_list;
    max_num_cols = max_num_cols;
    num_rows = length full_q_list;
    full_active_rows = range_from 0 (length full_q_list);
    full_active_cols = map (active_row max_num_cols) full_q_list;
    factors_per_row = factors_per_row;
    drop_order = [];
  })

unfoldable pub get_rows_of_sections : ModulusChain → List SectionName → Result (List ℕ)
get_rows_of_sections c [] = ok []
get_rows_of_sections c (name ∷ names) = do
  rows ← or_raise (rows_of name c.section_rows) key_error
  rest ← get_rows_of_sections c names
  ok (rows ++ rest)

unfoldable pub get_all_rows : ModulusChain → Result (List ℕ)
get_all_rows c = get_rows_of_sections c (map (λ s. s.0) c.section_rows)

-- `active_rows[len(active_rows) - k:]`, for `k` up to the length
abbrev pub last_rows : ℕ → List ℕ → List ℕ
last_rows k rows = drop (length rows - k) rows

unfoldable pub get_init_rows : ModulusChain → HomParams → Result (List ℕ)
get_init_rows c p = do
  rows ← or_raise (rows_of pipeline c.section_rows) key_error
  elim p.boot_params [
    | none ↦ ok rows
    | some b ↦ do
      base ← or_raise (rows_of boot_base c.section_rows) key_error
      stc ← if b.slim_boot then or_raise (rows_of boot_stc c.section_rows) key_error else ok []
      ok ((elim p.num_init_rows [ none ↦ rows | some k ↦ last_rows k rows ]) ++ (base ++ stc))
  ]
