-- ===== src/Lib.antt =====
-- The analytics service of QuickBite: it consumes the events of orders, keeps daily aggregates in
-- MongoDB, and answers queries on them over HTTP.
--
-- How the parts interact. A delivery from the broker goes to `Consumer.dispatch`
-- (lib/coreevents/consumer.go), which marks its event id as seen and calls the handler of its type
-- (app/analytics/eventhandlers/handlers.go). The broker (pkg/messaging) holds the connection,
-- declares the topology of a consumer and runs its receive loop. The handler decodes, validates and
-- merges the lines, and calls one method of the service
-- (app/analytics/service/analytics.service.go), which calls the four repositories
-- (app/analytics/repository). A request goes through the guards (lib/auth, lib/rbac) to a handler
-- of the controller (app/analytics/controller), which calls a query of the service. The permission
-- cache (lib/rbac/cache.go) asks core-service (lib/coreclient, pkg/httpclient), and an event drops
-- a role from it (lib/coreevents/rbac_handlers.go). The backfill (internal/backfill/backfill.go)
-- rebuilds the aggregates from the tables of order-service. At start-up lib/boot reads the
-- configuration, builds the parts, and starts the two consumers and the router.
--
-- The files:
--   Base, Exec          shared names, integers, int64, texts; calls that change the world and may fail
--   Errors              lib/errors, lib/http, and the permanent errors of lib/coreevents/payloads.go
--   Mongo               the calls of the MongoDB driver, the laws that are asked of them, and
--                       pkg/mongo in `Client`
--   Messaging           pkg/messaging: `Connection`, `Topology` and `Client` are the methods of
--                       `AMQPBroker`, the others are about them
--   Types               app/analytics/types.go, enums.go, errors.go
--   Rows                the abstract rows and counters, and what an event adds to them
--   Repository          app/analytics/repository and entity; `Interfaces` is the contract that the
--                       service is proved against, and `Counting` is about MongoDB
--   Service             app/analytics/service: `Writes`, `Queries`, `Access`, `Dates`, `Stored`
--   Events              app/analytics/eventhandlers and lib/coreevents; `Effects` reads off the
--                       payload of an event what it adds to the rows, and `Stream` is about the
--                       receive loop over the consumer, the handlers and the service
--   Rbac                lib/appcontext, lib/auth, lib/rbac and lib/coreevents/rbac_handlers.go;
--                       `Cache/Concurrent` has the critical sections of the cache as steps
--   Controller          app/analytics/controller and app/analytics/dto
--   Clients             pkg/httpclient and lib/coreclient
--   Backfill            internal/backfill, and cmd/backfill-aggs in `Command`
--   Boot                lib/boot, lib/config, lib/logger and lib/middleware
--   Tests               the theorems at concrete inputs
--
-- How the code is modelled. A function keeps its name, in snake case, and its order of calls and
-- early returns. A call that changes the world is a function from a world to a result and a world,
-- so that what was written before an error stays written. An int64 that the program adds or divides
-- wraps around; a counter that MongoDB increments does not, since the server refuses an overflow.
-- Loops are structural recursion over a list, and the retries of a call recurse on the attempts
-- that are left. Only the digits of a number recurse on fuel, which is the number itself: each
-- division by ten takes at least one off it, and the round trip of the array literal holds for
-- every integer. A critical section of a lock is one step. What other goroutines do after `Connect`
-- gave its lock back and before the connection is read is an argument `others` of the broker's
-- methods, the call of the permission cache to core leads to the entries as they are once the
-- answer is there, and Rbac/Cache/Concurrent has the critical sections of the cache as steps that
-- interleave. A goroutine is the value that starts it: `Consume` returns its receive loop, which
-- runs over the sequence of what it finds. Where Go panics, a division takes the test of its
-- divisor, and a method of nil or of no response answers the panic as an error.
--
-- Parameters. The MongoDB driver, PostgreSQL, JSON, JWT, the validator, `ParseInt`, RFC 3339 times,
-- strconv, float64, amqp091, the package env, chi and net/http are arguments of the definitions
-- that use them. What is relied on of them stands in records of hypotheses: `UpsertLaws` (an upsert
-- by the equalities of a unique key changes that one document, and a bulk write of distinct keys is
-- its upserts), `MarkerLaws` (a unique key is inserted once), `DeduperLaws`, `WriterLaws`,
-- `Database`, `TransportLaws`, `ParseLaws` (jwt.Parse answers only a token that is signed by the
-- key that the key function gives), `AnswerLog` (only the consumer answers the broker).
--
-- Not modelled: the container of fx with the order in which it builds and stops the parts
-- (lib/boot's Run and appOptions, cmd/api), the HTTP server and its shutdown, the set-up of slog
-- and the log lines other than the access log, the time-outs of a context, and the texts that
-- `Sprintf` makes: an error keeps its format.
pub mod Base
pub mod Errors
pub mod Exec
pub mod Mongo
pub mod Messaging
pub mod Types
pub mod Rows
pub mod Repository
pub mod Service
pub mod Rbac
pub mod Backfill
pub mod Events
pub mod Clients
pub mod Controller
pub mod Boot
pub mod Tests
