-- ===== src/Studio/Parse.antt =====
-- How the studio client reads the backend's replies: the tests on their shape in resources/workers.py and
-- resources/models.py (lattica_studio_src/lattica_studio).
use lattica_studio.Prelude.{String, str_eq, List, [], ◌∷◌, ◌++◌, Option, none, some, if◌then◌else◌}
use lattica_studio.Result.{Result, ok, invalid_resource_response_error, or_raise, ◌>>=◌}
use lattica_studio.Studio.{
  Json, null, text, number, boolean, array, object, Items, no_items, item, Fields, no_fields, field,
  get_field, Worker, worker_of, Model, model_from_api,
}

abbrev pub array_of : Json → Option Items
array_of (array elements) = some elements
array_of null = none
array_of (text t) = none
array_of (number n) = none
array_of (boolean b) = none
array_of (object entries) = none

abbrev pub object_of : Json → Option Fields
object_of (object entries) = some entries
object_of null = none
object_of (text t) = none
object_of (number n) = none
object_of (boolean b) = none
object_of (array elements) = none

-- `data.get(name, [])`, none where it is no array
unfoldable pub get_array : Fields → String → Option Items
get_array no_fields name = some no_items
get_array (field n value rest) name =
    let later = get_array rest name in if str_eq n name then array_of value else later

-- `[self._worker(worker) for worker in workers]`
unfoldable pub workers_of : Items → Result (List Worker)
workers_of no_items = ok []
workers_of (item x xs) = do worker ← worker_of x; workers ← workers_of xs; ok (worker ∷ workers)

-- The arrays of the groups: none where a group is no object, or its "workers" no array.
unfoldable pub groups_of : Items → Option (List Items)
unfolding get_array
groups_of no_items = some []
groups_of (item x xs) =
    let rest = groups_of xs in
    elim (object_of x) [
      | none ↦ none
      | some group ↦ elim (get_array group "workers") [
        | none ↦ none
        | some workers ↦ elim rest [ none ↦ none | some groups ↦ some (workers ∷ groups) ]
      ]
    ]

unfoldable pub workers_of_groups : List Items → Result (List Worker)
unfolding workers_of
workers_of_groups [] = ok []
workers_of_groups (group ∷ groups) = do
  workers ← workers_of group
  rest ← workers_of_groups groups
  ok (workers ++ rest)

-- The reply of `active`.
unfoldable pub active_workers : Json → Result (List Worker)
unfolding get_array groups_of workers_of_groups
active_workers response = do
  entries ← or_raise (object_of response) invalid_resource_response_error
  groups ← or_raise (get_array entries "activeWorkers") invalid_resource_response_error
  workers ← or_raise (groups_of groups) invalid_resource_response_error
  workers_of_groups workers

-- The reply of `list_sessions`.
unfoldable pub session_workers : Json → Result (List Worker)
unfolding get_array workers_of
session_workers response = do
  entries ← or_raise (object_of response) invalid_resource_response_error
  sessions ← or_raise (get_array entries "workerSessions") invalid_resource_response_error
  workers_of sessions

-- The reply of `get_by_id`.
unfoldable pub model_of : Json → Result Model
unfolding get_field model_from_api
model_of response = do
  entries ← or_raise (object_of response) invalid_resource_response_error
  value ← or_raise (get_field entries "model") invalid_resource_response_error
  data_of ← or_raise (object_of value) invalid_resource_response_error
  ok (model_from_api data_of)

-- `[Model.from_api(model) for model in models]`, if every one is an object
unfoldable pub each_model : Items → Result (List Model)
unfolding model_from_api
each_model no_items = ok []
each_model (item x xs) = do
  entries ← or_raise (object_of x) invalid_resource_response_error
  models ← each_model xs
  ok (model_from_api entries ∷ models)

-- The reply of `list`.
unfoldable pub models_of : Json → Result (List Model)
unfolding get_array each_model
models_of response = do
  entries ← or_raise (object_of response) invalid_resource_response_error
  models ← or_raise (get_array entries "models") invalid_resource_response_error
  each_model models
