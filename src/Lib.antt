-- ===== src/Lib.antt =====
-- Verification library for the Go examples: a model of the programs under examples/ that carry
-- logic of their own, with the theorems that make them correct.
--
-- The programs are independent of each other; each one is a module, named below with the Go
-- files it models. They share the helpers of Base: Boolean tests and lists over the native
-- numbers, and Go's results and error chains (`fmt.Errorf` with %w is `wrap`, with one
-- constructor for each format string; texts that are only printed or logged are left out).
--
-- * Breaker models examples/circuit-breaker/breaker.go (transition, allow, record, Do) and
--   main.go (Breaker/Service: the flaky service and the nine attempts). Breaker/Probes
--   interleaves calls, each split into its `allow` and its `record`, as the mutex lets them run;
--   Breaker/Policy has a machine whose states have only their own data, as a specification.
-- * Lock models examples/distributed-lock/lock.go (Acquire, Release, Extend and their two Lua
--   scripts) over an interface of the Redis server (Lock/Server), and main.go: the storage that
--   checks fences (Lock/Storage) and the stale-holder demonstration (Lock/Demo). Each message
--   may be lost before or after the server executes it. Lock/Memory is a server that meets the
--   interface; the tests run on it.
-- * Outbox models examples/outbox-pattern/outbox.go (PlaceOrder, PendingEvents, MarkDispatched,
--   Relay) over an interface of the SQL engine and its transactions (Outbox/Sql), and main.go: the publisher that
--   counts duplicates (Outbox/Publishing), the dual write and the crash window (Outbox/Demo).
--   Outbox/History runs orders and relays with failing statements and crashes in any order,
--   Outbox/Placing has the effect of an order on the tables; Outbox/Memory is an engine that
--   meets the interface.
-- * HttpClient models GetJSON and doGet of examples/http-client/main.go.
-- * Iterator models examples/iterator/main.go (Filter, Map, Take, Naturals): a sequence is a
--   function of its yield, as in Go.
-- * Kafka models examples/kafka/main.go: the topic, the producer with its bounded retries, the
--   consumer group and the restart.
-- * GrpcAdvanced models examples/grpc-advanced/main.go: interceptors, handlers and
--   demonstrations.
-- * Pool models examples/pool/pool.go: the workers as an interleaving of events.
-- * Postgres models examples/postgres/main.go: the two transactions of the write skew and the
--   retry. The effect of an isolation level is a hypothesis on the statements that fail.
-- * Websocket models examples/websocket/hub.go: the handlers of the connections as an
--   interleaving of their critical sections and writes; and main.go: recv and waitForClients, the
--   clients with their pumps and channels (Websocket/Room), and run (Websocket/Demo).
-- * Sqlite models examples/sqlite/main.go: inserts, queries, the two transactions and run
--   (Sqlite/Running), over an interface of the SQL engine.
-- * Pollers models examples/share-memory-by-communicating/main.go: the pollers, the monitor and
--   the sleeping goroutines as an interleaving of their rendezvous.
-- * Errors models examples/errors/main.go: findUser, loadProfile and the chains of their errors.
-- * UserApi models examples/httptest/main.go: the store, the handlers and FetchUser.
-- * Pipeline models examples/concurrency/pipeline/main.go: the goroutines of the linear pipeline
--   with its cancellation (Pipeline/Linear) and of the fan-in (Pipeline/FanIn) as interleavings
--   of their rendezvous.
-- * FanOut models examples/concurrency/fan-out-timeout/main.go: each worker races its goroutine
--   against a timeout.
-- * ErrGroup models examples/errgroup/main.go: fetchAll and fetchWithLimit over an interface of
--   the group, with its goroutines interleaved.
-- * Shutdown models examples/graceful-shutdown-signals/main.go: the workers, main and the
--   signal, interleaved.
-- * JobQueue models enqueueAndWait and runEngine of examples/redis/main.go over an interface of
--   the Redis server (JobQueue/Server), as interleavings of their commands.
-- * HttpServer models examples/http-server/main.go: the middlewares, the handlers, the
--   routes and the redirects of net/http's mux to cleaned paths.
-- * Grpc models examples/grpc/main.go: the two methods of the service and the client.
-- * Tracing models examples/otel-propagation/main.go: the two services and their spans, over an
--   interface of OpenTelemetry; and examples/otel/main.go: the checkout and run
--   (Tracing/Checkout), over the same interface.
-- * Readers models examples/io-readers-writers/main.go: the chunked loop, the copies, the
--   numbered lines of the scanner and the writers, over the contract of io.Reader.
-- * SyncPrimitives models examples/sync-primitives/main.go: the singleton under its Once as a
--   step relation of the goroutines, the atomic counters, and the sync.Map with the stores in any
--   order (SyncPrimitives/Maps).
-- * WorkerPool models examples/concurrency/worker-pool/main.go: the workers, main and the two
--   channels as a step relation.
-- * Context models examples/context/main.go over a model of the contexts of package context.
-- * Generics models examples/generics/main.go: the functions on slices and maps, with a map as the
--   quotient of its entries by their order (Generics/Orders), and the optional type.
-- * Crypto models verify and authenticatedEncryption of examples/crypto-basics/main.go over an
--   interface of the primitives.
-- * Pgo models the workload of examples/pgo/main.go: the words, their counts and the hottest
--   one.
--
-- What is not under examples/ (Redis, the SQL engines, Kafka, gRPC, errgroup, OpenTelemetry, the
-- network, clocks and random numbers) is a parameter or an argument: the answers of a call are
-- given, one for each call. Shared state under a mutex is changed in steps, one for each
-- critical section; goroutines are interleavings of such steps. net/http's mux is modelled as
-- far as HttpServer uses it.
--
-- Times are numbers of nanoseconds (milliseconds where the file says so). The naturals of Iterator
-- wrap at 2 ^ 64. Go's other ints are natural numbers without a bound: the counters of the breaker stay below their thresholds, which are
-- ints, and the other numbers count requests, rows or messages.
--
-- Loops over a slice or a count are structural recursions. The loops without a bound have fuel:
-- in Kafka the retries, where fuel for the attempts up to the deciding one is enough, and in
-- Iterator the naturals, where collecting n elements takes n + 1 steps, and in Readers the loops
-- over a reader, where one step more than there are bytes is enough. Termination of a pool of
-- workers is a bound on the number of events.
--
-- Not modelled: texts that are only printed; the start of servers and connections in main; the
-- examples that only show a call of a package (configuration, flags, logging, profiling,
-- serialization, templates, metrics, ORM-like access), generated code, tests and build files.
mod Base
pub mod Breaker
pub mod Lock
pub mod Outbox
pub mod HttpClient
pub mod Iterator
pub mod Kafka
pub mod GrpcAdvanced
pub mod Pool
pub mod Postgres
pub mod UserApi
pub mod Websocket
pub mod Sqlite
pub mod Pollers
pub mod Errors
pub mod Pipeline
pub mod Pgo
pub mod Tracing
pub mod HttpServer
pub mod Grpc
pub mod JobQueue
pub mod ErrGroup
pub mod Shutdown
pub mod Crypto
pub mod FanOut
pub mod Readers
pub mod SyncPrimitives
pub mod WorkerPool
pub mod Generics
pub mod Context
