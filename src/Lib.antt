-- ===== src/Lib.antt =====
-- A model of the relay's message path, with the theorems that make it correct.
--
-- A client's connection (src/adapters/web-socket-adapter.ts) takes a text, asks the rate limiter,
-- has the text decoded and validated, may demand authentication, and gives the message to a handler
-- (src/handlers). The handler of EVENT and AUTH checks the event and runs a strategy for its kind
-- (src/handlers/event-strategies), which writes to the event repository, answers on the connection
-- and has the event broadcast. The handler of REQ keeps a subscription and sends the stored events
-- that match its filters; a broadcast event is sent to each subscription that it matches.
--
-- A user is admitted by paying an invoice. A form asks for it (src/controllers/invoices), the payments
-- service (src/services) has the payments processor create it and stores it with its user, a callback
-- of the processor (src/controllers/callbacks) or the maintenance worker finds that it is paid, and
-- the service then confirms it and admits the user, which the handler of EVENT asks for.
--
-- Which file models what:
--   Prelude        tests, lists, texts as UTF-16 code units, decimal numbers
--   Bytes, Pow     src/utils/transform.ts (toBuffer, fromBuffer), src/utils/proof-of-work.ts
--   Event          src/utils/event.ts: Kinds, Filters (isEventMatchingFilter), Auth
--                  (isSignedAuthEvent), Expiration
--   Settings       src/@types/settings.ts
--   Limits         canAcceptEvent of src/handlers/event-message-handler.ts
--   Messages       src/@types/messages.ts, src/utils/messages.ts
--   Action, World  asynchronous methods as functions from a state to an outcome and a state: the
--                  connection, the database, the cache and the readings of the clock
--   Adapter        the state and the listeners of src/adapters/web-socket-adapter.ts
--   Repository     src/@types/repositories.ts, the interfaces; of
--                  src/repositories/event-repository.ts, EventRows, the rows that are written and
--                  that toNostrEvent reads, Query, findByFilters, and Table, the writes; Users and
--                  Invoices, src/repositories/user-repository.ts and invoice-repository.ts
--   Strategies     src/handlers/event-strategies and the factories of strategies
--   EventHandler   src/handlers/event-message-handler.ts, auth-event-message-handler.ts: Admission
--                  (isUserAdmitted), Stages (handleMessage, one step for each early return)
--   Subscribe      src/handlers/subscribe-message-handler.ts, unsubscribe-message-handler.ts
--   Connection     onClientMessage, isRateLimited and isAuthenticationRequired of the adapter, and
--                  src/factories/message-handler-factory.ts
--   Runes          src/utils/runes
--   Server         src/adapters/web-socket-server-adapter.ts and isRateLimited of
--                  src/handlers/request-handlers/rate-limiter-middleware.ts
--   RateLimiter    src/utils/sliding-window-rate-limiter.ts and the sorted sets of
--                  src/adapters/redis-adapter.ts; Laws, what redis documents
--   Mirror         src/app/static-mirroring-worker.ts
--   Payments       src/services/payments-service.ts, src/database/transaction.ts; Tables, the service
--                  on the rows of users and invoices
--   Controllers    src/controllers: Invoice, post-invoice-controller.ts, with Page, the page that it
--                  fills in, Check, get-admission-check-controller.ts, Lnbits,
--                  lnbits-callback-controller.ts and src/utils/secret.ts, Processors, the other
--                  callbacks and what src/utils/transform.ts reads of their bodies;
--                  src/utils/http.ts. Bytes.Bech32, fromBech32 and toBech32 of src/utils/transform.ts
--   Maintenance    onSchedule of src/app/maintenance-worker.ts
--   Examples       values, and the theorems applied to them
--
-- State is passed explicitly. A method that awaits is an `Action`: what it wrote before it throws
-- stays written. One message is handled from its beginning to its end; handlers that interleave are
-- not modelled. Numbers are the native natural numbers, which the schemas ensure for the fields of
-- events and filters.
--
-- Parameters: the database behind `EventRepository` and `UserRepository`, the cache behind
-- `RateLimiter`, the hash and the signature check (`Host`), the conversion of text to numbers
-- (`Host`, `Numbers`), the clock, random bytes, `equals`, `uniqWith` and `mergeDeepRight` of ramda,
-- the decoding of a message by JSON and joi (`Peer`, `MirrorContext`), transactions and the payments
-- processor (`PaymentsContext`, `ServiceContext`), the library bech32 (`Bech32Library`), the hash of
-- an HMAC (`LnbitsContext`, `ProcessorContext`), the file of the page and the text of a date
-- (`ControllerContext`), and the client of redis (`Redis`). The redis client is assumed to do with
-- sorted sets what its documentation says, and `Number` to read back decimal digits (`Documented`);
-- the library bech32 is assumed, for one theorem, to turn words into bytes; of the others no law is
-- assumed.
--
-- Fuel: the loops over the text of a rune take at most one round for each code unit, and the rounds
-- that they are given are the length of the text; `Pow.halvings` halves a number at most as often as
-- the number says, and `decimal` has one round more than the number, which is at least its digits.
-- Every other recursion is structural.
--
-- SQL: the conditions, the left join and the writes that the repository asks for are data, and what
-- they mean on rows is written out after the documentation of the database, which is a parameter
-- (`Postgres`) where it reads bytes and trims JSON. The table `events` is split as
-- migrations/20240120_000000_partition_events_table.js does it: both unique indexes are on the
-- partition events_hot alone, and a conflict is one with a row of events_hot, which is how
-- DISTRIBUTED-STORAGE.md has the upsert work. What a storage node makes of an insertion before the
-- range of events_hot is a parameter (`Storage`); an update is taken to reach the storage nodes.
--
-- Not modelled: routes and the requests for a page or a status, which only read; the answers of the
-- payments processors, which are HTTP; forking of workers; the order and the limit of a query's
-- answer; reading settings from files; and logging.
pub mod Prelude
pub mod Bytes
pub mod Pow
pub mod Event
pub mod Settings
pub mod Limits
pub mod Runes
pub mod Messages
pub mod Action
pub mod Adapter
pub mod Repository
pub mod World
pub mod Strategies
pub mod EventHandler
pub mod Subscribe
pub mod Connection
pub mod Server
pub mod RateLimiter
pub mod Mirror
pub mod Payments
pub mod Maintenance
pub mod Controllers
pub mod Examples
