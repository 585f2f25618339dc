-- ===== src/Lib.antt =====
-- A verification library for the load balancer: an HTTP reverse proxy that spreads requests over
-- backends, retries idempotent ones, skips backends whose circuit breaker is open, probes their health
-- and collects metrics.
--
-- The parts, the code that each models, and how they fit together:
-- - Handler (internal/handler/handler.go): `ServeHTTP` as `serve_http`, a loop of `attempt`s over the
--   state `Exchange`; each selects a backend through the balancer, asks its breaker, counts the
--   connection, runs the proxy through a `RetryableWriter`, and records the result. Handler/Goroutine
--   cuts a request into steps, one for each critical section on what the requests share, and
--   Handler/Service interleaves any number of requests with the health checks and the collector.
-- - LoadBalancer (internal/loadbalancer/loadbalancer.go): filter, choose, reserve, and the part
--   of a reservation under the lock.
-- - Strategy (internal/strategy/*.go, `createStrategy` of cmd/main.go): the type `Strategy` has one
--   constructor per implementation; RoundRobin, Random, LeastConn, LeastResponse, Weighted and
--   ConsistentHash hold the code of each.
-- - Backend (internal/backend/proxy.go): the counters, health and response time of a backend, in a
--   `Store` that maps pointers, which are numbers, to records.
-- - Breaker and Registry (internal/circuitbreaker/breaker.go and registry.go): the breakers live on a
--   heap, since the map of the registry shares them between goroutines.
-- - Metrics and Collector (internal/metrics/metrics.go, collector.go and handler.go): the recordings and
--   the snapshot, the buffered channel with the goroutine that empties it, and the answer of the
--   metrics' address.
-- - HealthCheck (internal/healthcheck/healthcheck.go): the probes that set the health flag,
--   and the panic of a ticker whose interval is not positive, which `Validate` lets pass.
-- - Config (config/config.go): the configuration with its defaults and validators; the rules of the
--   validation package are a parameter (Config/Rules) with what its documentation says of them.
-- - HttpServer (internal/httpserver/server.go): the check of the address, `New` and `Start`.
-- - Startup and Program (cmd/main.go and cmd/router.go): `initializeBackends`, and `main`, which
--   composes all parts, up to the running server, and how it ends.
-- - Logger (pkg/logger/logger.go): the level, the format and the attributes of the logger.
-- - Scripts: the load test (scripts/loadtest.go) with its worker pool, its summaries of latencies and
--   its exit status; the check of the table that it writes (scripts/check_results.go); CourseServer,
--   the server behind the balancer (scripts/backend.go); CbCompare and CbTest, the tests of the breaker
--   (scripts/cbcompare.go and scripts/cbtest.go).
-- - Go: what the code uses of the language's packages and of which the result matters: CRC-32, the
--   bytes of a string, decimal and hexadecimal numerals, sorting, binary search, a product with a
--   float constant, cutting and trimming text, `net.SplitHostPort`, `strconv.Atoi`.
-- - Prelude: shared names, 64-bit integers over a model of ℤ, maps as association lists.
--
-- Conventions. Integers of the machine wrap around (`add64` and its kin). A moment is a number; what
-- `time.Since` gives of two moments, the arithmetic of `float64`, the calls that `http.Error` makes,
-- the random draws and the outcome of each proxied request are arguments. A method under a mutex is
-- one step; where goroutines interleave (Registry/Sharing, Collector/Delivery, Handler/Service,
-- Scripts/LoadTest) the steps are a relation. The loop of `ServeHTTP` has the number of attempts left
-- as its fuel, `maxAttempts` at the start, so it never stops early; the other loops run over lists or
-- count down from the number of their turns.
--
-- Not modelled: reading the configuration with viper, what the logger writes, signals, the profiling
-- server and the text of the JSON of the metrics, which read, write and print; the reverse proxy of
-- net/http, which is an outcome of an attempt, and of which a panic that aborts an answer is only a
-- goroutine that makes no further step (Handler/Goroutine), not an outcome of `serve_http`; of
-- scripts/, what the programs print, the processes that they start and stop, and the phases of
-- scripts/cbtest.go that only print.
pub mod Go
pub mod Prelude
pub mod Backend
pub mod Breaker
pub mod Registry
pub mod Strategy
pub mod LoadBalancer
pub mod Metrics
pub mod Collector
pub mod Handler
pub mod HealthCheck
pub mod Startup
pub mod Config
pub mod HttpServer
pub mod Logger
pub mod Program
pub mod Scripts
