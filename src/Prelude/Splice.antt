-- ===== src/Prelude/Splice.antt =====
-- One entry put into a list, or taken out of it, by `take` and `drop`.
use lattica_studio.Prelude.{
  ℕ, zero, suc, ◌+◌, ◌≤◌, ◌<◌, ◌≡◌, refl, List, [], ◌∷◌, ◌++◌, some, arith, length, take, drop,
  get_elem?,
}

module _ {ℓ} {A : Type ℓ} where
  abbrev pub insert_at : List A → ℕ → A → List A
  insert_at xs a x = take a xs ++ x ∷ drop a xs

  abbrev pub remove_at : List A → ℕ → List A
  remove_at xs a = take a xs ++ drop (a + 1) xs

  pub length-insert_at : (xs : List A) (a : ℕ) (x : A) → length (insert_at xs a x) ≡ length xs + 1
  length-insert_at [] zero x = omega arith
  length-insert_at [] (suc a) x = omega arith
  length-insert_at (y ∷ xs) zero x = omega arith
  length-insert_at (y ∷ xs) (suc a) x = omega (arith, length-insert_at xs a x)

  pub get_elem?-insert_at_self :
      (xs : List A) (a : ℕ) (x : A) → a ≤ length xs → get_elem? (insert_at xs a x) a ≡ some x
  get_elem?-insert_at_self xs zero x h = refl
  get_elem?-insert_at_self [] (suc a) x h = elim h [ ]
  get_elem?-insert_at_self (y ∷ xs) (suc a) x h = get_elem?-insert_at_self xs a x (omega arith)

  pub get_elem?-insert_at_lt :
      (xs : List A) (a k : ℕ) (x : A)
      → k < a
      → k < length xs
      → get_elem? (insert_at xs a x) k ≡ get_elem? xs k
  get_elem?-insert_at_lt xs zero k x h l = elim h [ ]
  get_elem?-insert_at_lt [] (suc a) k x h l = elim l [ ]
  get_elem?-insert_at_lt (y ∷ xs) (suc a) zero x h l = refl
  get_elem?-insert_at_lt (y ∷ xs) (suc a) (suc k) x h l =
      get_elem?-insert_at_lt xs a k x (omega arith) (omega arith)

  pub get_elem?-insert_at_ge :
      (xs : List A) (a k : ℕ) (x : A)
      → a ≤ k
      → k < length xs
      → get_elem? (insert_at xs a x) (suc k) ≡ get_elem? xs k
  get_elem?-insert_at_ge xs zero k x h l = refl
  get_elem?-insert_at_ge [] (suc a) k x h l = elim l [ ]
  get_elem?-insert_at_ge (y ∷ xs) (suc a) zero x h l = elim h [ ]
  get_elem?-insert_at_ge (y ∷ xs) (suc a) (suc k) x h l =
      get_elem?-insert_at_ge xs a k x (omega arith) (omega arith)

  pub drop_one : (y : A) (xs : List A) (a : ℕ) → drop (suc a + 1) (y ∷ xs) ≡ drop (a + 1) xs
  drop_one y xs a = let e : suc a + 1 ≡ suc (a + 1) = omega arith in rw e

  pub remove_at-cons :
      (y : A) (xs : List A) (a : ℕ) → remove_at (y ∷ xs) (suc a) ≡ y ∷ remove_at xs a
  remove_at-cons y xs a = rw (drop_one y xs a)

module _ {ℓ} {A : Type ℓ} where
  pub length-remove_at :
      (xs : List A) (a : ℕ) → a < length xs → length (remove_at xs a) + 1 ≡ length xs
  length-remove_at [] a h = elim h [ ]
  length-remove_at (y ∷ xs) zero h = omega arith
  length-remove_at (y ∷ xs) (suc a) h = rw (drop_one y xs a) (omega (arith, length-remove_at xs a))

  pub get_elem?-remove_at_lt :
      (xs : List A) (a k : ℕ) → k < a → get_elem? (remove_at xs a) k ≡ get_elem? xs k
  get_elem?-remove_at_lt xs zero k h = elim h [ ]
  get_elem?-remove_at_lt [] (suc a) k h = let e : suc a + 1 ≡ suc (a + 1) = omega arith in rw e
  get_elem?-remove_at_lt (y ∷ xs) (suc a) zero h = refl
  get_elem?-remove_at_lt (y ∷ xs) (suc a) (suc k) h =
      rw (remove_at-cons y xs a) (get_elem?-remove_at_lt xs a k (omega arith))

  pub get_elem?-remove_at_ge :
      (xs : List A) (a k : ℕ)
      → a ≤ k
      → a < length xs
      → get_elem? (remove_at xs a) k ≡ get_elem? xs (suc k)
  get_elem?-remove_at_ge [] a k h l = elim l [ ]
  get_elem?-remove_at_ge (y ∷ xs) zero k h l = refl
  get_elem?-remove_at_ge (y ∷ xs) (suc a) zero h l = elim h [ ]
  get_elem?-remove_at_ge (y ∷ xs) (suc a) (suc k) h l =
      rw (remove_at-cons y xs a) (get_elem?-remove_at_ge xs a k (omega arith) (omega arith))
