-- ===== src/Result.antt =====
-- Python's exceptions, as values: the class of the exception that a function raises. The messages
-- are not modelled.
use lattica_studio.Prelude.{Bool, true, false, Option, none, some, ◌≡◌, refl, ◌⊎◌, inl, inr}

pub data Error : Type 0 where
  value_error type_error index_error runtime_error key_error zero_division : Error
  transport_timeout_error transport_error polling_timeout_error protocol_error : Error
  worker_execution_error authentication_error http_response_error client_version_error : Error
  invalid_resource_response_error worker_startup_timeout_error : Error
  compilation_error compilation_timeout_error attribute_error : Error
  os_error file_not_found_error keyboard_interrupt key_storage_error key_token_mismatch_error :
      Error
  token_storage_error invalid_credential_error serialization_error : Error

pub data Result {ℓ} (A : Type ℓ) : Type ℓ where
  ok : A → Result A
  err : Error → Result A

infixl 5 ◌>>=◌ ◌>>◌
abbrev pub ◌>>=◌ {ℓ κ} : {A : Type ℓ} {B : Type κ} → Result A → ((value : A) → Result B) → Result B
err raised >>= rest = err raised
ok value >>= rest = rest value

abbrev pub ◌>>◌ {ℓ} : {B : Type ℓ} → Result (Unit {0}) → Result B → Result B
first >> next = first >>= λ _. next

-- `if c: raise e`
abbrev pub raise_if : Bool → Error → Result (Unit {0})
raise_if true e = err e
raise_if false e = ok tt

-- What is read from an optional value that must be there.
abbrev pub or_raise {ℓ} : {A : Type ℓ} → Option A → Error → Result A
or_raise none e = err e
or_raise (some a) e = ok a

abbrev pub is_ok {ℓ} : {A : Type ℓ} → Result A → Bool
is_ok (ok a) = true
is_ok (err e) = false

pub >>=-eq-ok {ℓ κ} :
    {B : Type κ} {A : Type ℓ} (r : Result A) (rest : A → Result B) {result : B}
    → (r >>= rest) ≡ ok result
    → (value : A) × (r ≡ ok value) × (rest value ≡ ok result)
>>=-eq-ok (err raised) rest h = cc
>>=-eq-ok (ok value) rest h = (value, refl, h)

pub Result-cases {ℓ} :
    {A : Type ℓ} (r : Result A) → ((a : A) × (r ≡ ok a)) ⊎ ((e : Error) × (r ≡ err e))
Result-cases (ok a) = inl (a, refl)
Result-cases (err e) = inr (e, refl)

pub or_raise-ok {ℓ} :
    {A : Type ℓ} (o : Option A) (e : Error) {a : A} → or_raise o e ≡ ok a → o ≡ some a
or_raise-ok none e h = cc
or_raise-ok (some a) e h = cc

-- `P` holds of a chain if it holds of every error and of what the rest makes of a value.
pub >>=-holds {ℓ κ} :
    {A : Type ℓ} {B : Type κ} (P : Result B → Type 0) (m : Result A) (f : A → Result B)
    → ((e : Error) → P (err e))
    → ((a : A) → m ≡ ok a → P (f a))
    → P (m >>= f)
>>=-holds P (ok a) f raises h = h a refl
>>=-holds P (err e) f raises h = raises e
