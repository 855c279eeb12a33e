-- ===== src/Studio/Compile.antt =====
-- Waiting for a compilation.
use lattica_studio.Prelude.{
  ℕ, zero, suc, ◌+◌, ◌-◌, ◌*◌, ◌≤◌, ◌<◌, ◌≡◌, refl, [], ◌∷◌, Option, none, some, true, arith, leb,
  Bool-cases, inl, inr,
}
use lattica_studio.Result.{Result, ok, err}
use lattica_studio.Studio.{Json, Model, is_true, is_text, Backend, ClockLaws, Act, bind}
use lattica_studio.Studio.Parse.{model_of}
use lattica_studio.Studio.Start.{IsOver, one_less, lift-world}
use lattica_studio.Studio.Deployment.{get_by_id, check_model, wait_from, wait_for_compilation}

module _ {B : Type 0} (backend : Backend B) (model_id : Json) where
  -- The backend has said, in some state of the world, that the model is compiled.
  abbrev pub WasCompiled : Type 0
  WasCompiled =
      (b : B) × (b' : B) × (model : Model) × (get_by_id backend model_id b ≡ (b', ok model))
      × (is_true model.is_compiled ≡ true)

  -- A wait that is over without an error has seen the model compiled.
  abbrev pub Seen : Result (Option (Unit {0})) → Type 0
  Seen (err e) = Unit
  Seen (ok none) = Unit
  Seen (ok (some _)) = WasCompiled

  Seen-step :
      (b : B) (r : B × Result Model) (again : Act B (Option (Unit {0})))
      → get_by_id backend model_id b ≡ r
      → ((b' : B) → Seen (again b').1)
      → Seen (bind r (λ model. check_model backend model again)).1
  Seen-step b (b', err e) again at h = tt
  Seen-step b (b', ok model) again at h = elim (Bool-cases (is_true model.is_compiled)) [
    | inl compiled ↦ rw compiled (b, b', model, at, compiled)
    | inr other ↦ elim (Bool-cases (is_text "INACTIVE" model.status)) [
      | inl e ↦ rw (other, e) tt
      | inr e ↦ rw (other, e) (h b')
    ]
  ]

  -- `_wait_for_compilation` ends without an error only if the backend has said that the model is compiled.
  pub wait_from-Seen :
      (fuel poll_interval timeout start_time : ℕ) (b : B)
      → Seen (wait_from backend fuel model_id poll_interval timeout start_time b).1
  unfolding wait_from
  wait_from-Seen zero poll_interval timeout start_time b = tt
  wait_from-Seen (suc fuel) poll_interval timeout start_time b =
      elim (Bool-cases (leb timeout (backend.now b - start_time))) [
        | inl late ↦ rw late tt
        | inr early ↦ rw early (
            Seen-step b (get_by_id backend model_id b) _ refl λ b'.
              wait_from-Seen fuel poll_interval timeout start_time (backend.sleep poll_interval b'))
      ]

module _ {B : Type 0} (backend : Backend B) (laws : ClockLaws backend) (model_id : Json) where
  IsOver-step :
      (Q : B → Type 0) (r : B × Result Model) (again : Act B (Option (Unit {0})))
      → Q r.0
      → ((b : B) → Q b → IsOver (again b).1)
      → IsOver (bind r (λ model. check_model backend model again)).1
  IsOver-step Q (b', err e) again q h = tt
  IsOver-step Q (b', ok model) again q h = elim (Bool-cases (is_true model.is_compiled)) [
    | inl compiled ↦ rw compiled tt
    | inr other ↦ elim (Bool-cases (is_text "INACTIVE" model.status)) [
      | inl e ↦ rw (other, e) tt
      | inr e ↦ rw (other, e) (h b' q)
    ]
  ]

  get-later : (b : B) → backend.now b ≤ backend.now (get_by_id backend model_id b).0
  unfolding get_by_id
  get-later b =
      rw
        (lift-world backend laws
          (backend.call "api/model/get_model_info" (("modelId", model_id) ∷ []) b) model_of)
        (laws.call_later "api/model/get_model_info" (("modelId", model_id) ∷ []) b)

  wait_from-IsOver :
      (n fuel poll_interval timeout start_time : ℕ) (b : B)
      → start_time + timeout ≤ backend.now b + n * poll_interval
      → n < fuel
      → IsOver (wait_from backend fuel model_id poll_interval timeout start_time b).1
  unfolding wait_from
  wait_from-IsOver n zero poll_interval timeout start_time b enough more = absurd (omega arith)
  wait_from-IsOver n (suc fuel) poll_interval timeout start_time b enough more =
      elim (Bool-cases (leb timeout (backend.now b - start_time))) [
        | inl late ↦ rw late tt
        | inr early ↦
            let (k, is_suc, enough') =
              one_less n (start_time + timeout) (backend.now b) poll_interval enough
                (ground arith) in
            rw early (
              IsOver-step (λ b'. backend.now b ≤ backend.now b') (get_by_id backend model_id b) _
                (get-later b)
                λ b' later.
                  wait_from-IsOver k fuel poll_interval timeout start_time
                    (backend.sleep poll_interval b')
                    (omega (arith, enough', later, laws.sleep_later poll_interval b'))
                    (omega arith))
      ]

  -- Where the clock does not go back and sleeps last as long as asked for, `_wait_for_compilation` is
  -- over after `n + 1` passes of its loop if `n` poll intervals last as long as the timeout.
  pub wait_for_compilation-IsOver :
      (n fuel poll_interval timeout : ℕ) (b : B)
      → timeout ≤ n * poll_interval
      → n < fuel
      → IsOver (wait_for_compilation backend fuel model_id poll_interval timeout b).1
  unfolding wait_for_compilation
  wait_for_compilation-IsOver n fuel poll_interval timeout b enough more =
      wait_from-IsOver n fuel poll_interval timeout (backend.now b) b (omega arith) more
