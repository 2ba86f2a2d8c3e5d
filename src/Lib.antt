-- ===== src/Lib.antt =====
-- XRPLink: attestation of XRP Ledger payments by the Flare data connector, paid by subscription or
-- by an x402 payment for each attestation.
--
-- The program is an Express and MCP server. A request for an attestation (src/attest.ts) looks the
-- transaction up in the store (src/store.ts), finds out who pays, an API key inside its quota or an
-- x402 payment (src/x402-service.ts), checks the transaction on the XRP Ledger (src/xrpl-tx.ts), and
-- submits it to the Flare data connector. Accounts (src/user-store.ts, src/auth.ts) own the keys.
--
-- Which file models what:
--   Prelude, with Tests, Lists, Split, Text and Text/Digits: names that are shared, Boolean tests, list
--     measures, and the string operations of the language (`toLowerCase` and `toUpperCase` on ASCII
--     letters; texts are compared by code points).
--   Dict: objects and `Map`s as association lists in the order of insertion.
--   Keys: src/api-keys.ts, how a key becomes the id of its row.
--   Views: src/attestation-view.ts, who sees the proof; Views/Redaction has the proofs.
--   Webhooks/Addresses, Url: src/webhook-url.ts; Webhooks/Delivery: src/webhook-service.ts. The children
--     Ranges, Retries and Signature have the proofs.
--   Store: the records and the four-file write of src/store.ts (`syncPersist` is `sync_persist`, and
--     the tail of every operation is `commit`); Store/Attestations, Store/ApiKeys, Store/Webhooks and
--     Store/Usage have the methods of `JsonFileStore`, under the same names in snake case. Store/Load is
--     the constructor, which reads and migrates the four files and writes them again; Store/Load/Restart
--     compares a restart with the store before it, Store/Attestations/Runs follows the index over runs of
--     operations, and Store/ApiKeys/Rekey says which counters a new key takes over.
--   Postgres: the tables of `PostgresStore` in src/store.ts; its children have the methods, each as what
--     its statements do to the rows; Postgres/Usage/Laws is about its quota counters.
--   Migration: scripts/migrate-to-postgres.ts, which copies the files into the tables; Migration/Reads
--     and Migration/Lost say what the server finds there afterwards.
--   FileLock: src/file-lock.ts, the mutex as a step relation and the write by a rename;
--     FileLock/Serial compares interleaved tasks with tasks one after the other, and FileLock/Progress
--     is about calls that come to their end. A task is done, or hangs, after parts that pause. The other modules take an operation under a lock as one step.
--   Users: `UserStore` of src/user-store.ts, with `load` in Users/Load; Users/Sessions: src/auth.ts.
--   Quota: src/attestation-quota.ts with the calendar it uses; Quota/Periods has runs of it, and
--     Quota/Agreement compares the quota test with the store's reservation.
--   RateLimit: src/rate-limit.ts, with the limits that the environment sets and the address of a client.
--   Middleware: src/middleware.ts, the tokens of src/session.ts and the admin key of src/api-keys.ts;
--     Middleware/Budget counts what a key may do in a minute.
--   Routes: handlers of src/routes.ts after their guards: `/health`, `/receipts`, the status of an
--     attestation, webhooks, admin keys and margins. Routes/Registration is about webhooks, and
--     Routes/Accounts has the routes of accounts, of key rotation and of the dashboard.
--   Environment: src/env-validation.ts, a finding as a constructor in place of its text;
--     Environment/Flaws says which environments are invalid.
--   Prices: the price of src/price-service.ts; Prices/Feeds: its caches and the choice of a feed;
--     Prices/Quoted: `getAttestationPrice`, the price at the rates and the fee of the moment.
--   Ledger: src/x402-ledger.ts; Ledger/Days and Ledger/Counting lead to Ledger/Totals.
--   Xrpl: src/xrpl-tx.ts.
--   X402: the records and the state of src/x402-service.ts; X402/Quotes has the 402 quote,
--     X402/Settlement the check of a settlement on the ledger, X402/Facilitator what replies mean,
--     X402/Payment `processX402Payment`, cut at its early returns, and X402/Marks the marks after the
--     attestation. Below X402/Payment stand the proofs: Keeps is the rule by which the payment keeps a
--     predicate, History the step relation of the service with requests, quotes, marks and restarts.
--   Attest: the world of a request and the pieces a request is made of; Attest/Submit is
--     `submitToFdc`, Attest/Access who pays, Attest/Flow `attestXrpPayment`. Attest/Effects and
--     Attest/Flow/Quiet show which pieces leave the quota counters alone.
--   Fdc: src/fdc-service.ts, what is made of the replies of the services; Fdc/Rounds has the voting round.
--   Mcp: the tools of src/mcp/tools.ts and the resources of src/mcp/resources.ts; Mcp/Same compares them
--     with the routes.
--   Attest/Poll: `pollForProof`, and below it where it leaves the attestation.
--   Billing: the webhook of src/billing.ts and its handlers; Billing/Objects has what Stripe
--     reports and the tier of a price; Billing/Tiers has the proofs.
--   KeyRotation: src/key-rotation.ts; KeyRotation/Laws has the proofs.
--   Examples: concrete runs.
--
-- State is passed explicitly, and an operation gives its result with the state after it. What a file
-- write does is an argument (`Write`, `Save`): it works, or it throws, of the store after some of its
-- four files were replaced. The x402 state file may be unreadable at a restart (`StateRead`), and then
-- counts as empty; the ledger file is taken to be readable. A `throw` is the constructor `threw`, or `raised` inside a request. The
-- clock, fresh identifiers and random keys are arguments. Operations that run under a mutex are single
-- steps; a request is one run from its start to its answer.
--
-- Parameters, since they are not code of this repository: SHA-256, token signing, password hashing,
-- base64 and JSON, HMAC, the URL parser, `isIP`, the resolver and `decodeURIComponent`, the arithmetic on
-- doubles, the x402 facilitator, Stripe, the XRPL endpoints, the price feeds, and the Flare verifier and
-- its contracts. What is relied on of SHA-256 is that its digest is 64 lower-case
-- hexadecimal digits (`IsHexDigest`).
--
-- Numbers are natural: instants in milliseconds, counts, and drops. Where the source subtracts
-- instants the difference is compared by adding on the other side. The decimal digits of a number are
-- computed on fuel, for which the number itself is enough. The polling recurses on the attempts that
-- are left, as many as the configuration allows.
--
-- Not modelled: Stripe's checkout and portal sessions, the readers of environment variables and the
-- overrides for tests of the price service, the calls of FTSO and Kraken, a PostgreSQL connection that
-- fails under a statement, the routes of billing and pages, the transports of the MCP server, the
-- requests that are sent to the Flare services, mail, the texts of messages. A file write of the account
-- store is taken to succeed, except at its load.
pub mod Prelude
pub mod Dict
pub mod Keys
pub mod Store
pub mod RateLimit
pub mod Xrpl
pub mod X402
pub mod Users
pub mod Quota
pub mod Attest
pub mod Billing
pub mod KeyRotation
pub mod Examples
pub mod Environment
pub mod Ledger
pub mod Prices
pub mod Middleware
pub mod Migration
pub mod FileLock
pub mod Fdc
pub mod Mcp
pub mod Routes
pub mod Postgres
pub mod Views
pub mod Webhooks
