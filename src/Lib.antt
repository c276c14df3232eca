-- ===== src/Lib.antt =====
-- StreamWeave's orders service, identity service and gateway, modelled after their Go code.
--
-- The program. A customer orders through the HTTP API, whose application service authorizes the call
-- and hands a new order to the store. The store writes the order, its idempotency record and its
-- outgoing messages in one transaction of PostgreSQL. The relay publishes the messages of the outbox
-- to Kafka, and brings the facts of the inventory, payment and fulfillment services to the store,
-- which moves the order along its saga: reserved and priced by a signed quote, paid and confirmed,
-- completed, or failed or cancelled with compensations.
--
-- Accounts are the matter of the identity service: it registers users, verifies their addresses, opens
-- sessions with a refresh token each, rotates the token at every refresh and revokes the family of a
-- token that is used twice, manages roles, resets passwords, and gives tokens to machines. The other
-- services see only the signed access tokens. The gateway stands in front of both: it checks the token
-- and the scopes that a route asks for, limits the rate, and forwards the request with a token of its
-- own.
--
-- The files, and the code that they model (below apps/orders, but for Identity and Gateway):
--   Orders: internal/domain/orders/models.go. Orders/Model has the types and patterns,
--     Orders/Create NewOrder, Orders/Quote ApplyQuote, Orders/Lifecycle Transition,
--     TransitionIfVersion and Confirm; a method returns the order as it leaves it and the error.
--     Orders/Lifecycle/Graph has the life cycle as a diagram, Orders/Lifecycle/History the sequences
--     of method calls, Orders/Quote/Spec the exact sums that a quote should come to.
--   App: errors.go and ports.go of internal/application/orders, and mapError of the store.
--   Message: the JSON messages, as the fields that the code writes and reads.
--   Db: internal/adapters/outbound/postgres/generated. Db/Tables has the rows, with the CHECK
--     constraints of database/orders/migrations; Db/Queries and Db/Messages the statements, each a
--     function on all the tables; Db/Monad statements and transactions. Db/Silent, Db/Keeps,
--     Db/Moves and Db/Ends are rules for proofs on actions of that monad.
--   Store: internal/adapters/outbound/postgres/store.go and quote.go. Store/Create is Create,
--     Store/Cancel RequestCancellation, Store/Facts ProcessFact with Store/Reserve for the
--     reservation, Store/Payments for the payment and Store/Quotes for the quote's signature,
--     Store/Workflow the updates of an order and the compensations, Store/Payload the messages,
--     Store/Outbox the methods that the relay calls, with Store/Outbox/Rows on the rows that a claim
--     chooses. Store/Atomic, Store/Invariant, Store/Once, Store/Idempotency, Store/Requests,
--     Store/Failure and Store/Outbox/Lease hold what is proved of them.
--   Service: internal/application/orders/service.go, over any store, clock and id generator, which
--     are the fields of Service.Ports. Service/Access, Service/Hidden and Service/Calls hold what is
--     proved of it.
--   Relay: cmd/relay/main.go, over any store, broker and clock, the fields of Relay.Ports.
--     Relay/Publish is publishBatch, Relay/Consume processMessage and consumeMessages, the latter as
--     a machine whose step is one turn of a loop, Relay/Backoff the delays. Relay/Offsets holds what
--     is proved of the consumer.
--   Identity: apps/identity/internal. Identity/Model is domain/identity and the records of ports.go,
--     Identity/Tables the rows of database/identity/migrations, Identity/Accounts, Identity/Sessions
--     and Identity/Secrets the statements of adapters/outbound/postgres/generated, Identity/Store the
--     methods of adapters/outbound/postgres/store.go, Identity/Service the helpers of
--     application/identity/service.go, with its operations in Service/Signin (Register, Login,
--     Logout), Service/Refresh, Service/Admin, Service/Recovery and Service/Machine;
--     Identity/Requests has the operations as data, and runs of them. Identity/Monad is what they run
--     on; Identity/Ends has rules for proofs about it. Identity/History holds how rows may change over time,
--     Identity/Rotation what is proved of Refresh, Identity/Revocation of what ends sessions,
--     Identity/Opening of Login and ServiceToken.
--   Gateway: apps/gateway/internal. Gateway is domain/gateway, Gateway/Policies its DefaultPolicies,
--     Gateway/Service application/gateway/service.go over any verifier, limiter, token provider and
--     upstream, the fields of Gateway.Service.Ports. Gateway/Access holds what is proved of it.
--   Sorting: sort.Strings, and sets of strings kept as maps.
--   Prelude and Text: shared helpers; Go's strings and regular expressions.
--   Samples, and the modules called Tests: concrete data and runs.
--
-- What stands outside. The fields of Db.Monad.Env decide whether a call of the database fails, and
-- give the random ids, the clock, the JSON decoding of a fact and SHA-256; those of
-- Store.Quotes.QuoteVerifier give base64, JSON, time parsing, Ed25519 and the key set. Nothing is
-- assumed of any of them. A call of the database that fails changes no table, Commit included: a
-- commit whose answer is lost is not modelled. Transactions run one after another.
-- The fields of Identity.Monad.Env are the ports of the identity service: password hashing, tokens, the
-- limiter, the mailer, the clock, random ids, and unicode.ToLower; further what other requests commit
-- between two accesses to the database, before a SELECT or a transaction. A theorem that needs the
-- other requests to behave, or to be absent, or NewOpaque to give a token with its hash, says so.
-- Names are sorted by their characters, where PostgreSQL uses the collation of the database.
--
-- Bounds. int64 and uint64 wrap around. A version in the database is below 2^63, by the constraint
-- on its row; a statement that would count `attempts` of a message past 2^31 - 1 fails. Loops over
-- items, lines and rows are recursion on the list; no function needs fuel. The consumer's loop has
-- no end; it is followed for any number of turns.
--
-- Store/Create and Store/Cancel store expires_at with an idempotency key, as the code does. Nothing in
-- the code reads it, so the expiry of docs/design/orders-idempotency.md is not in the model.
--
-- Not modelled: the text of JSON messages, the rounding of timestamps by PostgreSQL, the order of a
-- Go map, the audit table of the orders service, a reason cut inside a character (it is cut in front of
-- it), List of the orders store and its cursors, the listing of users, the relay of the identity
-- service, the adapters of the gateway, the HTTP adapters, configuration, logging and telemetry.
pub mod Prelude
pub mod Text
pub mod Orders
pub mod Samples
pub mod App
pub mod Sorting
pub mod Identity
pub mod Gateway
pub mod Message
pub mod Db
pub mod Store
pub mod Service
pub mod Relay
