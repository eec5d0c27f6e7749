-- ===== src/Lib.antt =====
-- LLMSentinelRouter routes a prompt to a weak or a strong language model, within the budget of its
-- session. This library models the program's own logic and proves what makes it correct.
--
-- The router (internal/router/router.go) finds the session of a request and reserves a part of its
-- budget (internal/budget, internal/storage), looks for a confident route in the semantic cache
-- (internal/semantic), looks for a cycle (internal/cycle), has a judge rate the prompt
-- (internal/judge), decides on a tier against the dynamic threshold (internal/threshold), calls
-- the tier's models in the order of the configuration (internal/config) as the rate limiter
-- (internal/rate) lets it, and settles the cost.
--
-- The modules and the code that they model:
--   Storage    internal/storage/storage.go, budget.go: the sessions table, its statements, and the
--              operations on sessions (GetOrCreateSession is get_or_create_session, and so on);
--              the routing_decisions table and MetricsSummary; audit.go: the tables of the log;
--              state.go: the table of saved values
--   Budget     internal/budget/budget.go: the Manager
--   Threshold  internal/threshold/threshold.go: Dynamic
--   Rate       internal/rate/limiter.go: Limiter, its windows, Check
--   Cycle      internal/cycle/detector.go: Detector, Registry
--   Semantic   internal/semantic/hash.go and cache.go: SimHash, HammingDistance, Cache;
--              persistent_cache.go and internal/storage/semantic_cache.go: the cache beside its tables
--   Config     internal/config/sentinel.go: the data, Validate and the conversion of the older format;
--              manager.go: the reload; settings.go: the settings and their defaults
--   Judge      internal/judge: HealthTracker, Registry.Evaluate, the heuristic on a text and the
--              reading of an answer
--   Provider   internal/provider/client.go: the attempts of a request, the reading of a stream
--   Redaction  internal/redaction/redaction.go: the engine and its patterns
--   Router     internal/router/router.go: Route as a whole (World has its state, Route the steps to a
--              reply, Finish those after it), decideRoute, buildReason, orderedKeys, candidates,
--              callCandidates, the figures of each model
--   Metrics    internal/metrics/metrics.go: the Collector's recent events; aggregate.go: the figures of
--              the dashboard
--   Prelude    tests, lists, signed integers (sums and products wrap at 64 bits), the interface of
--              float64 with the laws of IEEE arithmetic that proofs use, fixed-point numbers that have them,
--              texts, maps
--   Exec       results, errors, and functions that change a state and may fail
--   Tests      results at concrete inputs, and runs of the definitions
--
-- A method that changes its receiver returns the new one. Mutexes make the methods atomic, so a
-- history is a list of calls. The database is a table beside a list of turns: before each
-- statement other callers' statements may run, and a statement may be refused, or run and lose its
-- result; an operation is a sequence of statements. A cost or a limit that is NaN is NULL, which
-- the table does not take. The inserts of the log have a list of outcomes of the same kinds. Times
-- are counts of nanoseconds and arguments.
--
-- Fuel: get_or_create_session has one more unit than there are turns left, since each recursion
-- uses one; where the limit of the session is NaN no fuel is enough. exchange_sort has the length
-- of its list; post_from has the attempts that are left. Other recursion is structural.
--
-- Route runs one request by itself on the world of the router and its store: what other requests
-- do to the sessions table meanwhile stands in the turns of the database. The clocks, the answers
-- of the providers and of the judges, and the generated ids are arguments, in a record `Outside`.
--
-- Not modelled: HTTP (internal/server, the requests of internal/provider), JSON, files, streaming
-- in Route, the events that Route emits for the metrics, the latencies. Regular expressions, HMAC,
-- SHA-256, strings.ToLower and the like are parameters, and so is the slice of bytes of Redaction,
-- which may cut a character. Queries of the two tables of the cache fail or not by a list of
-- Booleans.
pub mod Prelude
pub mod Exec
pub mod Storage
pub mod Budget
pub mod Threshold
pub mod Rate
pub mod Semantic
pub mod Cycle
pub mod Config
pub mod Judge
pub mod Provider
pub mod Router
pub mod Metrics
pub mod Redaction
mod Tests
