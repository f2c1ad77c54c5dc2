-- ===== src/Lib.antt =====
-- The order integration between Shopify and NetSuite, modelled file by file and proved.
--
-- The program. A webhook of a shop, a poller or an operator puts a message that names an order on a
-- queue. The order handler takes it from there: it claims the order in a ledger (`xref`), fetches it
-- from Shopify, decides whether it may be imported, resolves the customer, builds a payload, applies
-- taxes, balances it, resolves the items, writes the order to NetSuite, and keeps the books: the
-- ledger, the error records, the sync log and one attempt row for each delivery. Calls to NetSuite
-- pass a governor that keeps the number of calls in flight on an account under a ceiling.
--
-- Which file models what:
-- Base: the language's side. Value is a dynamic value, Effects a method of an object that may throw
--   (`M`), Dict and Set are `Map` and `Set`, Sort is the stable sort by a falling number, Text and
--   Search are operations on strings and the regular expressions, Time is `toISOString`, Date is
--   `Date.parse`, Print is `String(v)`, Int is whole numbers and Decimal the reading of decimals and
--   their rounding to cents.
-- Core.Types: packages/core/src/env.ts and types.ts.
-- Core.DedupKey: packages/core/src/id/dedup-key.ts (`dedupKey`).
-- Core.Xref: packages/core/src/xref/xref-store.ts, one definition for each method of
--   `InMemoryXrefStore`; Machine, Exclusive, Keyed and Leaves hold what is proved of it.
-- Core.Governor: packages/core/src/governor and
--   packages/netsuite-client/src/governor-middleware.ts; Contract is the interface of a store,
--   Shared and PerProcess are the two stores, Acquire is the wait and the middleware; Bounds and
--   Trap count the calls in flight with one shared store and with one store for each process.
-- Core.Errors, Core.Queue, Core.Connections, Core.Replay, Core.OrderAttempt, Core.OrderSyncLog,
--   Core.Watermark: the stores and the replay of packages/core/src under the same names. Queue.Message
--   is the message on the wire, with the parser of the order handler.
-- Shopify.Order: packages/shopify-client/src/order.ts; OrderValue is an order as the object that paths
--   walk through.
-- Engine: packages/mapping-engine/src. Eligibility is `checkEligibility`, Mapping primitives.ts,
--   MappingResult result.ts, Registries the lookup table, Paths `getPath` and `setPath`, Evaluator
--   `evaluate`.
-- NetSuite: packages/netsuite-client/src. PayloadBuilder is `buildOrderPayload` and
--   `wrapNsReferences`, with DeriveFns (derive-fns.ts), Address (`shopifyAddressToNs`) and
--   DefaultOrderMap (default-order-map.ts); Tax is tax-strategy.ts, Balancing `applyBalancing`,
--   ItemResolver `resolveItemReferences`, Gateway gateway.ts, FakeGateway fake-gateway.ts. Lines
--   reads the sublists of a payload, Sample is a payload for the tests.
-- Functions.Customer: apps/functions/src/activities/customer-resolver.ts (`resolveCustomer`), with
--   Addressbook for the two ways to build the addressbook.
-- NetSuite.ErrorMapping: packages/netsuite-client/src/error-mapping.ts (`mapNetSuiteError`).
-- Functions.Classification: apps/functions/src/triggers/error-classification.ts.
-- Functions.Webhook: apps/functions/src/triggers/shopify-webhook.ts, with Shopify.Hmac for
--   packages/shopify-client/src/hmac.ts; the digest, base64 and `JSON.parse` are parameters.
-- Functions.CatchUp: apps/functions/src/triggers/order-catchup-poller.ts (`pollCatchup`), with
--   Shopify.Gateway for the summary of an order of packages/shopify-client/src/gateway.ts; Loop and
--   Advance follow the queue and the cursor through a poll.
-- Functions.DeadLetter: apps/functions/src/triggers/order-dlq-handler.ts
--   (`handleDeadLetteredOrder`); Parse is its `parseEnvelope`, Inputs what it writes; Silent and
--   Quarantined follow the stores through it, Erased the row of the sync log.
-- Functions.OrderImport: apps/functions/src/triggers/order-import-handler.ts. World is the state
--   and the dependencies, Log is `writeSyncLog`, Attempt `recordAttempt`, Digest
--   `buildPayloadDigest`, Park is `parkOutcome` and `classifyAndRoute`, Pipeline is the body behind
--   the claim with its catch and finally, Handler is `handleOrderMessage`, Stages puts the models
--   of the customer, payload, tax, balancing and item stages into its dependencies and follows an
--   order through them. Traverse walks once through the handler for any relation between the states
--   that the single changes respect; Writes, Rows, Refused, Gate, Books and Redelivery use it. Unasked
--   compares a delivery with one that has another NetSuite, for Refused and Gate.
-- Core.Sample and Shopify.Sample are the connection and the order that the tests of several files
--   share; the module Tests beside a part runs it on concrete inputs.
--
-- How the state is modelled. A store is a record, its methods are functions to a result and the next
-- state, and an exception keeps the changes made before it. The handler's state holds the stores,
-- the telemetry events, the orders written to NetSuite and a state `E` of everything outside, of
-- which nothing is assumed: Shopify, NetSuite, the blob storage, the clock and the way to the
-- database are functions on `E` that may throw at any call. A customer that a stage writes to
-- NetSuite is a change of `E` too. The stages that the handler imports from other files stand in its
-- dependencies as such functions too. A payload is its fields, in their order. Values are trees:
-- that two objects share a part is not seen.
--
-- Numbers. An amount is the decimal that was read, and a sum is in cents, where the code has binary
-- floating point. The rounding to cents and `toFixed(2)` of an amount of more than two decimal places
-- go by way of the nearest double, as in the code, so 1.005 is 100 cents; an amount of at most two
-- places is its number of cents. The sums are those of the code as long as the amounts of an order stay
-- below a million and its lines below a thousand. NaN is a value of its own.
--
-- Bounds and fuel. The wait for a governor slot runs on fuel of the timeout in milliseconds and two
-- more rounds; each sleep moves the clock, so the deadline comes first. The nearest double of
-- a quotient is found by doublings, at most 52 and four for each decimal place, and by halvings, fewer
-- than its numerator. Nothing else needs fuel.
--
-- Not modelled: the adapters to Postgres, the blob storage, Key Vault and the Service Bus, the
-- GraphQL and SDK gateways, the admin command line and its web pages, the registration of the
-- handlers at the runtime. The Postgres stores are not the in-memory ones that are modelled: an
-- upsert of the sync log, for one, keeps some columns there that the input leaves out. The
-- reconciliation and the admin API have no model. Texts of exceptions leave out a number or a dump
-- of the input where the file says so; `toLowerCase` is that of the ASCII letters.
pub mod Base
pub mod Core
pub mod Shopify
pub mod Engine
pub mod NetSuite
pub mod Functions
