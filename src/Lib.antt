-- ===== src/Lib.antt =====
-- Models and proofs of the application services of the go-modulith-template, a Go template of a
-- modular monolith: the parts under internal/ and modules/ that keep state or decide something,
-- each as a module here.
--
-- The parts and the files that model them:
--
-- - Resilience (internal/resilience): `Breaker` is circuit_breaker.go. Its mutex makes
--   beforeRequest, afterRequest and Reset atomic, so `before_request`, `after_request` and `reset`
--   are functions of the record, `execute` composes them as Execute does where no other goroutine
--   comes between, and `Step` in Breaker/Invariant is one critical section of any goroutine.
--   `Retry` is retry.go: `attempts_from` is the loop of Retry, and Retry/Behind puts the breaker
--   behind it, as a caller of an external service does.
-- - Saga (internal/saga/saga.go): `execute` and `compensate`, over any state that the steps act
--   on. Saga/Undo describes what the compensations leave and the error that is kept, without the
--   loop.
-- - Outbox (internal/outbox/outbox.go): the table of migrations/shared is a list of rows; `store`,
--   `get_unpublished` and `mark_published` are the SQL statements, `process` is Process.
-- - Registry (internal/registry): the lifecycle hooks of the registered modules, in the order in
--   which they are called.
-- - Cache (internal/cache/memory.go): the map of items as an association list; one function per
--   method, `cleanup_tick` for the goroutine.
-- - Middleware (internal/middleware/rate_limit.go): the limiter per address and the centralized
--   limit, which counts in the cache of the module Cache.
-- - Feature (internal/feature/flags.go): flags in memory with percentages and rules.
-- - Errors (internal/errors/errors.go): domain errors as chains, their codes, and in Grpc the
--   status that a client sees.
-- - Auth (modules/auth/internal/service/service.go and oauth.go,
--   modules/auth/internal/repository/repository.go, internal/authtoken/jose.go, internal/oauth):
--   `Token` the tokens; `Tables` the tables of the schema auth with the faults to come, statements
--   and transactions, and `Queries` the queries; `Sessions` the handlers RefreshSession, Logout,
--   ListSessions, RevokeSession and RevokeAllSessions; `Login` RequestLogin, CompleteLogin and
--   Register; `Profile` the profile, changes of contacts and linked accounts; `Oauth` the login
--   and linking by a provider, with the flow and the store of states in `Oauth/State` and
--   encryption and signed states in `Oauth/Crypto`. Handlers are functions of the tables and of
--   the faults to come; a body of WithTx is a sequence of queries.
-- - Access (internal/authn/authn.go and interceptor.go, internal/authz/authz.go): the context of a
--   call, the interceptor that fills it, and the checks that handlers make of it.
-- - Events (internal/events/bus.go): the subscriptions of the bus in memory.
-- - Websocket (internal/websocket/hub.go): the hub's maps and the channels of the clients;
--   `Hub/Delivery` has the specification, a table of connections and their users.
-- - Prelude: lists, maps as association lists, tests on native numbers and texts, and int64 with
--   its wrap-around.
--
-- How the parts meet: the retry loop calls the breaker's `execute`, the rate limiter calls the
-- cache's `increment` and `expire`, and the auth handlers store events by the outbox's `store` in
-- their transactions; the others stand alone.
--
-- Bounds: loops are structural recursions on lists, on the attempts that are left or on the rounds
-- that the source allows, so no fuel can run out. The counters of the breaker and of a rate limit
-- stand for Go ints far below 2^63, except that the counter of the cache wraps as int64 does, for
-- which the limit in a window has a hypothesis. The hash of a user is computed modulo 2^32. Times
-- are nanoseconds, in the outbox any unit; each reading of the clock is an argument, so no order
-- of the readings is assumed where a theorem does not say so. PostgreSQL keeps microseconds:
-- `to_microseconds` cuts the expiry of an OAuth state, which the program reads back, while the
-- other rows, whose times are only compared in the model, keep the time as given, so that a code,
-- a session or a token of the database may in truth expire up to a microsecond earlier than here.
--
-- Parameters, for what is not code of the repository: rate.Limiter (`Limiter`), fmt's printing and
-- scanning of an integer (`Decimal`, with the law `RoundTrips`), the JSON decoder, JOSE signatures
-- (`Jose`), the hash of a token, json.Marshal, SQL's lower, AES-GCM, HMAC and base64 (`Gcm`,
-- `Hmac`, `Base64` with the laws that they rely on), the OAuth library, the generated codes and
-- ids, the faults of the database, strings.TrimSpace, i18n.T, the random factors and float
-- products of the delays, and the functions that callers pass.
--
-- Not modelled: logging, metrics and tracing; the goroutines and the network around the WebSocket
-- hub, and the SQL feature manager; the configuration; the drivers of brokers, queues, mail and
-- databases; generated code; the commands, which wire the parts together.
pub mod Prelude
pub mod Access
pub mod Auth
pub mod Cache
pub mod Errors
pub mod Events
pub mod Feature
pub mod Middleware
pub mod Outbox
pub mod Registry
pub mod Resilience
pub mod Saga
pub mod Websocket
