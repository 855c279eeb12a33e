-- ===== src/Tracer/Tensors.antt =====
-- The tensor registry: a tensor is stored once, under a reference that stays its own.
use lattica_studio.Prelude.{
  ℕ, ◌≡◌, ◌≢◌, sym, List, [], ◌∷◌, ◌++◌, none, some, arith, length, Bool-cases, Option-cases, inl,
  inr, ◌==◌,
}
use lattica_studio.Tracer.{Ref, number, find_tensor, register_tensor}

abbrev pub Absent : ℕ → List (Ref × ℕ) → Type 0
Absent t [] = Unit
Absent t ((ref, s) ∷ ts) = (s ≢ t) × Absent t ts

-- No tensor twice.
abbrev pub Once : List (Ref × ℕ) → Type 0
Once [] = Unit
Once ((ref, s) ∷ ts) = Absent s ts × Once ts

find-append :
    (ts us : List (Ref × ℕ)) (t : ℕ) (ref : Ref)
    → find_tensor ts t ≡ some ref
    → find_tensor (ts ++ us) t ≡ some ref
unfolding find_tensor
find-append [] us t ref h = cc
find-append ((r, s) ∷ ts) us t ref h = elim (Bool-cases (s == t)) [
  | inl e ↦ ground arith
  | inr e ↦ let more = find-append ts us t ref in ground arith
]

find-new :
    (ts : List (Ref × ℕ)) (t : ℕ) (ref : Ref)
    → find_tensor ts t ≡ none
    → find_tensor (ts ++ (ref, t) ∷ []) t ≡ some ref
unfolding find_tensor
find-new [] t ref h = ground arith
find-new ((r, s) ∷ ts) t ref h = let more = find-new ts t ref in ground arith

find-Absent : (ts : List (Ref × ℕ)) (t : ℕ) → find_tensor ts t ≡ none → Absent t ts
unfolding find_tensor
find-Absent [] t h = tt
find-Absent ((r, s) ∷ ts) t h = elim (Bool-cases (s == t)) [
  | inl e ↦ ground arith
  | inr e ↦ (ground arith, find-Absent ts t (ground arith))
]

Absent-append :
    (s : ℕ) (ts : List (Ref × ℕ)) (ref : Ref) (t : ℕ)
    → s ≢ t
    → Absent s ts
    → Absent s (ts ++ (ref, t) ∷ [])
Absent-append s [] ref t ne a = (λ e. ne (sym e), tt)
Absent-append s ((r, u) ∷ ts) ref t ne a = (a.0, Absent-append s ts ref t ne a.1)

Once-append :
    (ts : List (Ref × ℕ)) (ref : Ref) (t : ℕ) → Absent t ts → Once ts → Once (ts ++ (ref, t) ∷ [])
Once-append [] ref t a o = (tt, tt)
Once-append ((r, u) ∷ ts) ref t a o =
    (Absent-append u ts ref t a.0 o.0, Once-append ts ref t a.1 o.1)

register-new :
    (ts : List (Ref × ℕ)) (t : ℕ)
    → find_tensor ts t ≡ none
    → register_tensor ts t ≡ (number (length ts), ts ++ (number (length ts), t) ∷ [])
unfolding register_tensor
register-new ts t e = rw (e, register_tensor)

register-old :
    (ts : List (Ref × ℕ)) (t : ℕ) (ref : Ref)
    → find_tensor ts t ≡ some ref
    → register_tensor ts t ≡ (ref, ts)
unfolding register_tensor
register-old ts t ref e = rw (e, register_tensor)

-- What registering leaves: the tensor is found under the reference returned, and whatever was found
-- before is found under the same reference still.
pub record Registered (tensors : List (Ref × ℕ)) (tensor : ℕ) (ref : Ref)
    (tensors' : List (Ref × ℕ)) : Type 0 where
  pub found : find_tensor tensors' tensor ≡ some ref
  pub kept : (t : ℕ) (r : Ref) → find_tensor tensors t ≡ some r → find_tensor tensors' t ≡ some r
  pub still_once : Once tensors → Once tensors'

-- Registering a tensor stores it under the reference that is returned, moves no tensor that is stored
-- already, and stores no tensor twice where none was before. Registering it again returns the same
-- reference and stores nothing.
pub register_tensor_lem :
    (tensors : List (Ref × ℕ)) (tensor : ℕ)
    → let (ref, tensors') = register_tensor tensors tensor in
      Registered tensors tensor ref tensors' × (register_tensor tensors' tensor ≡ (ref, tensors'))
register_tensor_lem tensors tensor = elim (Option-cases (find_tensor tensors tensor)) [
  | inl e ↦
      let new = find-new tensors tensor (number (length tensors)) e in
      rw (register-new tensors tensor e) (
        record {
          found = new;
          kept = λ t r h. find-append tensors _ t r h;
          still_once = Once-append tensors _ tensor (find-Absent tensors tensor e);
        },
        register-old (tensors ++ (number (length tensors), tensor) ∷ []) tensor _ new,
      )
  | inr (ref, e) ↦ rw (register-old tensors tensor ref e) (
    record { found = e; kept = λ t r h. h; still_once = λ o. o },
    register-old tensors tensor ref e,
  )
]
