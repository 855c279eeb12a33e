-- ===== src/Lib.antt =====
-- A model of the core of Lattica Studio in cubical type theory: how a pipeline of homomorphic
-- operators is traced and given levels, and how the clients drive workers and deployments.
--
-- The program's parts. lattica_build traces a pipeline of operators. Each traced value is a HomValue: a
-- tensor shape, the slot axis in it, the active rows and columns of the modulus chain, and a
-- plaintext scale. shape_tracing.py and the operators say what an operator does to the shape;
-- level_and_scale_tracing.py says which levels it consumes, on a chain whose primes primes_utils.py
-- draws and whose bootstrap rows bootstrapping_params.py chooses. hom_op_tracer.py records the graph.
-- lattica_query keeps the key of a token in a directory, gives its evaluation key to the backend, and
-- runs one action on a worker; lattica_studio deploys models and starts workers.
--
-- The files, with the code each is about:
--   HomValue     lattica_build_src/lattica_build/base_classes/hom_value.py
--   Shape        lattica_build_src/lattica_build/params/shape_tracing.py; the indexers are in
--                Shape/Indexer, and the other children hold proofs
--   Primes       lattica_build_src/lattica_build/params/primes_utils.py
--   Bootstrap    lattica_build_src/lattica_build/params/bootstrapping_params.py
--   Params       lattica_build_src/lattica_build/params/params.py: the constructor, and to_dict and
--                from_dict in Params/Dict
--   Chain, Levels, Align
--                lattica_build_src/lattica_build/params/level_and_scale_tracing.py: ModulusChain, the
--                drops, and the alignment with fresh levels and the order of consumption
--   Operators    lattica_build_src/lattica_build/operators: shape and slots in part; arithmetic,
--                fhe/h_bootstrap.py and h_ring_switch.py in Operators/Arithmetic; fhe/h_mod_switch.py in
--                Operators/ModSwitch; polynomials/h_poly_eval_base.py, slots/h_running_sum.py and
--                slots/h_expand.py in Operators/Evaluation; the other children hold proofs
--   Pipeline     lattica_build_src/lattica_build/base_classes/hom_pipeline.py: get_leaf_ops, the
--                constructor in Pipeline/Inputs and the start of serialize in Pipeline/SetUp
--   Tracer       lattica_build_src/lattica_build/base_classes/hom_op_tracer.py
--   Credentials  lattica_query_src/lattica_query/client/credentials.py and client/artifacts.py
--   Effects      actions whose effects may raise or be the last, with the laws for their outcomes
--   Storage      lattica_query_src/lattica_query/storage/_files.py, with storage/key_store.py in
--                Storage/Load and Storage/Save, the names of files in Storage/Paths, and
--                storage/token_store.py in Storage/Tokens; the other children hold proofs
--   Keys         lattica_query_src/lattica_query/client/keys.py
--   Worker       lattica_query_src/lattica_query/transport/worker.py and http.py
--   Studio       lattica_studio_src/lattica_studio: types.py, resources/workers.py,
--                resources/models.py, resources/tokens.py and deployment.py
--   Prelude, Result, Torch
--                shared helpers, the exceptions as values, and torch as a parameter
--   Tests        the theorems at concrete inputs
--
-- Functions keep the source's names. A function that may raise returns a Result, whose errors are the
-- classes of the exceptions; messages are not modelled. The modulus chain is changed in place by a
-- drop, so the level rules return it beside the value. The studio methods act on a state of the
-- outside world through a Backend: a call, the clock and a sleep.
-- An action of the key store takes a list of events, one for each effect it has: the effect works,
-- raises, or the process dies before it; with no event left, all effects work. So a theorem about all
-- lists is about every failure and every crash at every effect. Temporary files are left out of the
-- directory, as no read opens them; the lock is one effect to take and one to give back, and what two
-- processes do at once is not modelled. The name of a new revision is an argument.
--
-- Parameters, for code that is not in the repository: Torch (broadcast_shapes, reshape, the product of
-- an int64 tensor) with the laws of its documentation; Scales, the arithmetic of ints and Decimals;
-- the content of good_primes.json; Backend and its clock;
-- Services, the worker, the backend and the key generation that KeysAPI calls. Their laws are
-- hypotheses where a theorem needs them.
--
-- Bounds and fuel. `bits_with` has the number itself as fuel, which is more than its bits. The polling
-- loop runs on a list of attempts, and the loops of `start` and `_wait_for_compilation` on a number of
-- passes; theorems below say how many passes are enough. `collect` has as fuel the number of operators,
-- as each descent sees one more. Logarithms are exact: `ceil_log2` searches from 0 on, with the number
-- itself as fuel. All other loops are structural.
--
-- Not modelled: exception messages, isinstance checks of Python types, floats (err_std and the interval
-- of a polynomial are represented by the outcomes of their checks), the JSON of the graph, forward
-- bodies, clear execution, logs and tables, other files, tokens' base64 text, and the generated
-- protobuf modules. Times are whole ticks.
mod Prelude
pub mod Result
pub mod Torch
pub mod HomValue
pub mod Effects
pub mod Credentials
pub mod Storage
pub mod Keys
pub mod Shape
pub mod Primes
pub mod Bootstrap
pub mod Params
pub mod Chain
pub mod Levels
pub mod Align
pub mod Operators
pub mod Tracer
pub mod Worker
pub mod Studio
pub mod Tests
pub mod Pipeline
