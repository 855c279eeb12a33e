-- ===== src/Tests/Client.antt =====
-- The trace, the worker transport and the studio client at small inputs.
use lattica_studio.Prelude.{
  ℕ, ◌+◌, ◌≡◌, refl, String, str_eq, List, [], ◌∷◌, Option, none, some, true, arith, if◌then◌else◌,
}
use lattica_studio.Prelude.Int.{pos}
use lattica_studio.Result.{Result, ok, err, value_error}
use lattica_studio.HomValue.{HomValue}
use lattica_studio.Tracer.{RecordedOp, finalize}
use lattica_studio.Tracer.LastUse.{with_last_uses, finalize-last_uses}
use lattica_studio.Worker.{Attempt, timed_out, no_timings, poll_for_result}
use lattica_studio.Worker.Polling.{IsDone, poll_ends}
use lattica_studio.Studio.{
  Json, text, number as num, array, object, item, no_items, field, no_fields, Worker, Model,
  Backend, ClockLaws, worker_of, worker_from_api, value_of, get_field, model_from_api,
}
use lattica_studio.Studio.Parse.{
  active_workers, get_array, groups_of, workers_of_groups, workers_of, models_of, each_model,
}
use lattica_studio.Studio.Workers.{stop, start, get_or_start, running, active, reuse_or}
use lattica_studio.Studio.Start.{Ready, get_or_start-Ready, IsOver, start-IsOver}
use lattica_studio.Studio.Running.{outcome, running_stops}
use lattica_studio.Studio.Deployment.{list, prepare_model, wait_from}
use lattica_studio.Studio.Compile.{Seen, wait_from-Seen}
use lattica_studio.Studio.Prepare.{IsFirst, Prepared, prepare_model_lem}

-- `mul(x, x)`, and then an addition of its result and `x`
abbrev ops : List RecordedOp
ops =
    record { inputs = "x" ∷ "x" ∷ []; output = "v0"; input_last_uses = [] }
    ∷ record { inputs = "v0" ∷ "x" ∷ []; output = "v1"; input_last_uses = [] }
    ∷ []

finalize-last_uses_example : finalize ops ≡ with_last_uses ops []
finalize-last_uses_example = finalize-last_uses ops

abbrev input : HomValue ℕ
input = record {
  id = some "mask";
  tensor_shape = 4 ∷ [];
  n_axis = some (pos 0);
  active_rows = some (0 ∷ []);
  active_cols = some ((1 ∷ []) ∷ []);
  pt_scale = 10;
  custom_input_ref = some "mask";
  n_slots = none;
}

abbrev main_input : HomValue ℕ
main_input = record input { id = some "x"; custom_input_ref = none; active_rows = some (3 ∷ []) }

-- Two requests that time out, with an interval of 5 and a deadline of 5.
abbrev attempts : List Attempt
attempts =
    record {
      before_sleep = 0;
      after_sleep = 5;
      after_request = 5;
      duration = 0;
      outcome = timed_out;
    }
    ∷ record {
      before_sleep = 6;
      after_sleep = 6;
      after_request = 6;
      duration = 0;
      outcome = timed_out;
    }
    ∷ []

poll_ends_example : IsDone (poll_for_result 5 "id" no_timings attempts).1
poll_ends_example =
    poll_ends 5 5 1 0 "id" no_timings attempts (omega arith) (omega arith) (omega arith)

abbrev up : Json
up = object (field "workerSessionId" (text "s") (field "status" (text "UP") no_fields))

abbrev answer : String → Json
answer endpoint =
    if str_eq endpoint "api/worker/get_active_workers"
    then object (
        field "activeWorkers"
          (array (item (object (field "workers" (array (item up no_items)) no_fields)) no_items))
          no_fields)
    else if str_eq endpoint "api/model/list_models"
    then object (
        field "models"
          (array (
            item
              (object (
                field "modelId" (text "m")
                  (field "modelName" (text "net") (field "numDevices" (num (pos 2)) no_fields))))
              no_items))
          no_fields)
    else up

-- A backend that takes one tick for a call, with the clock as its state.
abbrev backend : Backend ℕ
backend = record {
  call = λ endpoint params b. (b + 1, ok (answer endpoint));
  now = λ b. b;
  sleep = λ k b. b + k;
}

backend-ClockLaws : ClockLaws backend
backend-ClockLaws = record {
  call_later = λ endpoint params b. omega arith;
  sleep_later = λ k b. omega arith;
}

get_or_start-Ready_example : Ready (get_or_start backend 361 (text "m") 0).1
get_or_start-Ready_example = get_or_start-Ready backend 361 (text "m") 0

start-IsOver_example : IsOver (start backend 361 (text "m") 5 1800 0).1
start-IsOver_example =
    start-IsOver backend backend-ClockLaws 360 361 (text "m") 5 1800 0 (omega arith) (omega arith)

wait_from-Seen_example : Seen backend (text "m") (wait_from backend 3 (text "m") 5 10 0 0).1
wait_from-Seen_example = wait_from-Seen backend (text "m") 3 5 10 0 0

abbrev net : Model
net = record {
  id = some (text "m");
  name = some (text "net");
  status = none;
  instance_type = none;
  num_devices = some (num (pos 2));
  is_compiled = none;
}

list_runs : list backend 0 ≡ (1, ok (net ∷ []))
unfolding list models_of get_array each_model model_from_api value_of get_field
list_runs = refl

prepare_model_lem_example :
    (found : Option Model) × IsFirst "net" (net ∷ []) found
    × Prepared backend "net" "G7E_2XLARGE"
        (pos 1)
        found
        1
        (prepare_model backend "net" "G7E_2XLARGE" (pos 1) 0)
prepare_model_lem_example =
    prepare_model_lem backend "net" "G7E_2XLARGE" (pos 1) 0 1 (net ∷ []) list_runs

abbrev ready : Worker
ready = record { session_id = some (text "s"); model_id = none; status = some (text "UP") }

found_runs : get_or_start backend 361 (text "m") 0 ≡ (1, ok (some ready))
unfolding get_or_start active active_workers get_array groups_of workers_of_groups workers_of
    worker_of worker_from_api value_of get_field reuse_or
found_runs = refl

-- a block that raises
abbrev block : Worker → ℕ → ℕ × Result ℕ
block worker b = (b + 9, err value_error)

running_stops_example :
    let stopped = stop backend (some (text "m")) (some (text "s")) 10 in
    running backend 361 (text "m") true block 0
    ≡ (stopped.0, outcome backend 361 (text "m") block stopped.1 (err value_error))
running_stops_example =
    running_stops backend 361 (text "m") block 0 1 ready (text "s") found_runs refl
