-- ===== src/Lib.antt =====
-- The allocation-key generation service: an API that accepts generations, a queue, and workers that
-- load the data of a generation, run an algorithm on it and store the allocation keys.
--
-- How the parts interact. The API (api/generation/service.py) stores the upload, commits a PENDING
-- row and publishes an event. A worker (worker/dispatcher.py) takes the event, reads the row, loads
-- the readings from the file (shared/data_loading.py) or from the CRM (shared/crm_*.py), runs the
-- algorithm (algorithms/) and saves the result or the failure (worker/persistence.py) before it
-- acks the event and deletes the file.
--
-- Files:
--   Base: lists and tests over native numbers, texts as code points, `Num` (the numbers that the
--     program computes with, as an interface) and `NumLaws` (what is relied on of them).
--   Shared: shared/const.py, the result types of algorithms/base.py, shared/problem_size.py and
--     shared/data_loading.py.
--   Crm: shared/crm_meter_repository.py (the two SELECTs over a list of readings),
--     shared/crm_preflight.py and shared/crm_timeseries.py. `Accepted` composes them: the summary
--     that is judged and the frame that is built read the same table.
--   Algorithms.BruteForce: algorithms/algorithms_implemented/brute_force. `Iteration`, `Functions`,
--     `Generator` and `Algorithm` follow the code; `Reference` enumerates the keys without trees.
--   Algorithms.Olagsa: algorithms/algorithms_implemented/olagsa. `Space` is _impl/coordinate.py and
--     _impl/segment.py; `Solution` is _impl/solution.py with its consumers, iterations and keys;
--     `WarmStart` is _impl/warm_start_solver.py; `Species`, `Genes`, `Selection`, `Placement` and
--     `Generations` are _impl/ga.py, with specie.py, individual.py and bestsolution.py; `Algorithm`
--     is algorithm.py and inputs.py. `Outside` holds the calls of random, math, numpy and cvxpy,
--     `Draw` the code that draws, solves or raises.
--   Algorithms.Registry: algorithms/registry.py.
--   Core.Queue, Core.RequestLimits: core/queue/helper.py (the consumer settings) and
--     core/middleware/request_limits.py.
--   Core.Realtime: core/realtime. `Channels`, `Envelope` and `Bus` are its three files.
--   Worker.World, Worker.Persistence: the tables and the two saves of worker/persistence.py, each
--     with the ways its database calls can fail (`Weather`). `Claims` interleaves the conditional
--     UPDATEs of several workers.
--   Worker.Dispatcher: `_handle_message` and `_process` of worker/dispatcher.py. `Env.Delivery`
--     holds what one delivery meets outside of the dispatcher.
--   Worker.Startup: `_detect_available_cpus`, `_solver_pool_size` and `_connect_nats_with_retry` of
--     worker/main.py.
--   Api: `_read_within_cap`, `start_generation`, `start_generation_from_crm`, `preview_crm_data`,
--     `save_key`, `delete_generation` and `delete_key` of api/generation/service.py.
--   Api.UploadShape: api/generation/upload_shape.py; the requests take its result as a parameter.
--   Examples: concrete runs, with fixed-point numbers.
--
-- State and errors. A worker is a function from a world to an outcome and a world; an outcome is
-- a value, a `_TransientError` or another exception, and what was written before stays written.
-- A request of the API is the same over a database, with the CRM session of the request as part
-- of it. The genetic search is a function of the state of the generators and of the solver,
-- which all solves of a run share; an exception ends it without a result. Loops are structural
-- recursion over the lists that they walk or on the number of rounds that are left, so no fuel
-- is needed; `decimal` recurs on the number plus one, which bounds its digits.
--
-- Parameters: pandas (with `PivotLaws`, what it documents of `pivot` and `sort_index`), the
-- object store, the broker, the CRM session, the algorithm registry, the process pool, the time
-- zone database, the upload count, the CSV reader, archives and regular expressions that it
-- uses, the JSON of a hint, the random generators, the convex solver, the broker's handling of a
-- consumer, the files of the operating system and Python's `int` and `upper`. A solve may depend
-- on what the solves before it left (`warm_start`), and it may raise. Between the reading of a
-- row and the save of its result the world may change (`meanwhile`); a request of the API runs
-- on its own.
--
-- The cancellation of a task from outside is not modelled.
--
-- Arrays are lists: the matrices of a run are taken to be rectangular, as
-- `to_algorithm_raw_data` makes them, where numpy would raise on others. Logging, tracing, the
-- API's metrics, the payloads of its audit entries and the rows' time stamps are left out.
--
-- Not modelled: the paginated listings, the HTTP edge, the publishing of events, the realtime
-- client's connection, the process pool, the subscription, the shutdown and the in-progress
-- heartbeat.
pub mod Base
pub mod Shared
pub mod Crm
pub mod Algorithms
pub mod Core
pub mod Worker
pub mod Api
pub mod Examples
