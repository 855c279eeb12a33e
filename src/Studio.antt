-- ===== src/Studio.antt =====
-- What the studio client (lattica_studio_src/lattica_studio) is built on: JSON values, the backend behind
-- `BackendAPI.call` as a parameter, and the records of types.py.
pub mod Parse
pub mod Workers
pub mod Start
pub mod Deployment
pub mod Compile
pub mod Prepare
pub mod Running
pub mod TokenReplies
pub mod Tokens
use lattica_studio.Prelude.{
  ℕ, ◌+◌, ◌≤◌, String, str_eq, List, [], ◌∷◌, Option, none, some, Bool, true, false, not, ◌||◌,
  length, ◌==◌, if◌then◌else◌,
}
use lattica_studio.Prelude.Int.{ℤ, pos}
use lattica_studio.Prelude.Python.{eqb_ℤ}
use lattica_studio.Result.{Result, ok, err, Error, invalid_resource_response_error}

-- A JSON value; an object has each name once. Its numbers are integers here: no code below reads another number.
mutual
  pub data Json : Type 0 where
    null : Json
    text : String → Json
    number : ℤ → Json
    boolean : Bool → Json
    array : Items → Json
    object : Fields → Json

  pub data Items : Type 0 where
    no_items : Items
    item : Json → Items → Items

  pub data Fields : Type 0 where
    no_fields : Fields
    field : String → Json → Fields → Fields

-- `data.get(name)`, with None for null and for a missing name.
unfoldable pub get_field : Fields → String → Option Json
get_field no_fields name = none
get_field (field n null rest) name = if str_eq n name then none else get_field rest name
get_field (field n value rest) name = if str_eq n name then some value else get_field rest name

-- `_value(data, *names)`
unfoldable pub value_of : Fields → List String → Option Json
unfolding get_field
value_of entries [] = none
value_of entries (name ∷ names) =
    let rest = value_of entries names in
    elim (get_field entries name) [ none ↦ rest | some value ↦ some value ]

abbrev pub is_text : String → Option Json → Bool
is_text s (some (text t)) = str_eq t s
is_text s none = false
is_text s (some null) = false
is_text s (some (number n)) = false
is_text s (some (boolean b)) = false
is_text s (some (array elements)) = false
is_text s (some (object entries)) = false

-- Python's truth of a value.
abbrev pub is_true : Option Json → Bool
is_true none = false
is_true (some null) = false
is_true (some (text t)) = not (str_eq t "")
is_true (some (number n)) = not (eqb_ℤ n (pos 0))
is_true (some (boolean b)) = b
is_true (some (array no_items)) = false
is_true (some (array (item x elements))) = true
is_true (some (object no_fields)) = false
is_true (some (object (field n x entries))) = true

-- `value == n` for an int `n`: True is 1 and False is 0.
abbrev pub equals : Json → ℤ → Bool
equals (number m) n = eqb_ℤ m n
equals (boolean b) n = eqb_ℤ (if b then pos 1 else pos 0) n
equals null n = false
equals (text t) n = false
equals (array elements) n = false
equals (object entries) n = false

pub record Worker : Type 0 where
  pub session_id : Option Json
  pub model_id : Option Json
  pub status : Option Json

-- Worker.from_api; the two dates are left out.
unfoldable pub worker_from_api : Fields → Worker
unfolding value_of get_field
worker_from_api entries = record {
  session_id = value_of entries ("workerSessionId" ∷ "sessionId" ∷ "session_id" ∷ []);
  model_id = value_of entries ("modelId" ∷ "model_id" ∷ []);
  status = get_field entries "status";
}

abbrev pub is_ready : Worker → Bool
is_ready worker = is_text "UP" worker.status

pub record Model : Type 0 where
  pub id : Option Json
  pub name : Option Json
  pub status : Option Json
  pub instance_type : Option Json
  pub num_devices : Option Json
  pub is_compiled : Option Json

-- Model.from_api, for the entries that the deployment reads.
unfoldable pub model_from_api : Fields → Model
unfolding value_of get_field
model_from_api entries = record {
  id = value_of entries ("modelId" ∷ "id" ∷ []);
  name = value_of entries ("modelName" ∷ "name" ∷ []);
  status = get_field entries "status";
  instance_type = value_of entries ("instanceTypeId" ∷ "instanceType" ∷ "instance_type" ∷ []);
  num_devices = value_of entries ("numDevices" ∷ "num_devices" ∷ []);
  is_compiled = value_of entries ("is_compiled" ∷ "isCompiled" ∷ []);
}

-- The backend and the clock, on a state `B` of the outside world.
pub record Backend (B : Type 0) : Type 0 where
  -- `BackendAPI.call(endpoint, parameters)`
  pub call : String → List (String × Json) → B → B × Result Json
  -- `time.monotonic()`
  pub now : B → ℕ
  -- `time.sleep(seconds)`
  pub sleep : ℕ → B → B

-- The clock does not go back, and a sleep lasts at least as long as asked for.
pub record ClockLaws {B : Type 0} (backend : Backend B) : Type 0 where
  pub call_later :
      (endpoint : String) (params : List (String × Json)) (b : B)
      → backend.now b ≤ backend.now (backend.call endpoint params b).0
  pub sleep_later : (k : ℕ) (b : B) → backend.now b + k ≤ backend.now (backend.sleep k b)

-- What a client method does: it changes the world and returns or raises.
abbrev pub Act : Type 0 → Type 0 → Type 0
Act B A = B → B × Result A

module _ {B : Type 0} where
  abbrev pub bind : {A C : Type 0} → B × Result A → (A → Act B C) → B × Result C
  bind (b, ok a) f = f a b
  bind (b, err e) f = (b, err e)

  infixl 5 ◌>>=◌ ◌>>◌
  abbrev pub ◌>>=◌ : {A C : Type 0} → Act B A → (A → Act B C) → Act B C
  ◌>>=◌ m f b = bind (m b) f

  abbrev pub ◌>>◌ : {C : Type 0} → Act B (Unit {0}) → Act B C → Act B C
  m >> k = m >>= λ _. k

  abbrev pub pure : {A : Type 0} → A → Act B A
  pure a b = (b, ok a)

  abbrev pub raise : {A : Type 0} → Error → Act B A
  raise e b = (b, err e)

  abbrev pub lift : {A : Type 0} → Result A → Act B A
  lift r b = (b, r)

-- `_worker`
unfoldable pub worker_of : Json → Result Worker
unfolding worker_from_api
worker_of (object entries) = ok (worker_from_api entries)
worker_of null = err invalid_resource_response_error
worker_of (text t) = err invalid_resource_response_error
worker_of (number n) = err invalid_resource_response_error
worker_of (boolean b) = err invalid_resource_response_error
worker_of (array elements) = err invalid_resource_response_error
