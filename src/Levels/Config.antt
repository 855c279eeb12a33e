-- ===== src/Levels/Config.antt =====
-- The configuration of one drop: the row that is named, and the column that goes.
use lattica_studio.Prelude.{
  ℕ, ◌≡◌, ◌≢◌, List, [], none, some, get_elem?, arith, ◌⊎◌, inl, inr, ◌==◌, Bool-cases,
  Option-cases, ==_iff,
}
use lattica_studio.Result.{ok, Result-cases}
use lattica_studio.Torch.{Torch}
use lattica_studio.Chain.{ModulusChain, gather}
use lattica_studio.Levels.{
  DropConfig, sum_cols, active_factors, factors_of_active_rows, collect_cols, get_drop_row_config,
  get_drop_cols_config, get_drop_config,
}

module _ (torch : Torch) (chain : ModulusChain) (rows : List ℕ) (cols : List (List ℕ)) where
  -- The drop of one level that a configuration stands for.
  abbrev pub IsOneDrop : List ℕ → DropConfig → Type 0
  IsOneDrop c config =
      (sum_cols c ≡ 1) × (config.cols_to_drop ≡ none)
      ⊎ (sum_cols c ≢ 1) × (config.cols_to_drop ≡ some (collect_cols 0 [] 1 c))

  pub drop_row-ok :
      (row : ℕ) (c : List ℕ) (config : DropConfig)
      → get_drop_row_config torch chain rows row c ≡ ok config
      → (config.relative_row ≡ row) × (config.cols_to_drop ≡ none)
  unfolding get_drop_row_config
  drop_row-ok row c config h =
      elim (Option-cases (get_elem? (factors_of_active_rows 0 chain.factors_per_row rows) row)) [
        | inl e ↦ ground arith
        | inr (factors, e) ↦ elim (Result-cases (active_factors factors c)) [
          | inl (new, e2) ↦ ground arith
          | inr (x, e2) ↦ ground arith
        ]
      ]

  drop_cols-ok :
      (row : ℕ) (c : List ℕ) (config : DropConfig)
      → get_drop_cols_config torch chain rows row c ≡ ok config
      → (config.relative_row ≡ row) × (config.cols_to_drop ≡ some c)
  unfolding get_drop_cols_config
  drop_cols-ok row c config h =
      elim (Option-cases (get_elem? (factors_of_active_rows 0 chain.factors_per_row rows) row)) [
        | inl e ↦ ground arith
        | inr (factors, e) ↦ elim (Result-cases (gather factors c)) [
          | inl (new, e2) ↦ ground arith
          | inr (x, e2) ↦ ground arith
        ]
      ]

  pub config-ok :
      (row : ℕ) (config : DropConfig)
      → get_drop_config torch chain rows cols row 1 ≡ ok config
      → (c : List ℕ) × (get_elem? cols row ≡ some c)
        × (config.relative_row ≡ row)
        × IsOneDrop c config
  unfolding get_drop_config
  config-ok row config h = elim (Option-cases (get_elem? cols row)) [
    | inl e ↦ ground arith
    | inr (c, e) ↦ elim (Bool-cases (sum_cols c == 1)) [
      | inl one ↦
          let (a, b) = drop_row-ok row c config (ground arith) in
          (c, e, a, inl ((==_iff (sum_cols c) 1).0 one, b))
      | inr more ↦
          let (a, b) = drop_cols-ok row (collect_cols 0 [] 1 c) config (ground arith) in
          (c, e, a, inr (ground arith, b))
    ]
  ]
