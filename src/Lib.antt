-- ===== src/Lib.antt =====
-- Verification library of the conversation service: the core of src/lib, as functions on tables,
-- and what makes it correct.
--
-- The service keeps everything in one PostgreSQL database. A send is first written as intent (a
-- PENDING message and an outbox entry); a drain claims entries under a lease, calls the mail provider
-- and settles the outcome. Delivery webhooks are projected onto messages and conversations, each
-- change of a conversation is recorded as a numbered event, and a runtime publishes the events. Files
-- live in an object storage; rows of attachments and tombstones say what is in it.
--
-- The files, and the code they model:
--   Prelude         tests on numbers and texts, tables as lists (select, update, delete, order_by),
--                   actions on the database that may throw (transaction rolls back), and the claim
--                   statement that every worker uses (Leases)
--   Database        prisma/schema.prisma: rows, enums, the database, the errors thrown
--   Conversation    State: src/lib/email/conversation-state.ts
--                   Events: src/lib/conversation-events.ts
--                   Events.Runtime: src/lib/conversation-event-runtime.ts
--   Delivery        src/lib/email/delivery.ts
--   Outbox          Policy, Batches (claim), Batches.Settle, Batches.Drain: src/lib/outbox-service.ts
--                   Attachments, Attachments.Drain: src/lib/attachment-outbox-service.ts
--                   Scheduler: src/lib/outbox-drain-scheduler.ts
--   Attachments     Claim: src/lib/attachments/claim.ts
--                   Ingest: src/lib/attachments/ingest-runtime.ts
--                   Reaper: src/lib/attachments/reaper.ts, with the trigger on deleted attachments of
--                   prisma/migrations/20260908000000_add_email_attachments/migration.sql
--   Email           Routing: src/lib/email/routing.ts
--                   Threading: src/lib/email/threading.ts
--                   Merging, Conversations, Hydration: src/lib/email/conversations.ts (the merge of
--                   conversations, recordOutboundInternetMessageId, hydrateReferencedOutboundMessages)
--   Requests        src/lib/send-validation.ts: Json (bodies as JSON.parse returns them), Checks (and
--                   src/lib/api.ts), Inputs (the values returned), Fields, Bodies
--   Sending         src/lib/conversation-service.ts: Mail (buildSendEmailInput),
--                   Service (deliverPendingMessage, recoverPendingMessage,
--                   ensureInternetMessageId)
--   Examples        concrete tables and runs
-- A function of the code has the same name in snake case; the other modules of a directory hold
-- proofs about the module they stand under.
--
-- How the code is read. A table is the list of its rows, and a statement is a function on it. An
-- asynchronous function is an action: a function from the database to an outcome (a value or a thrown
-- error) and a database. Where code outside a transaction waits for the provider or the storage, an
-- argument `meanwhile` says what other transactions do to the database. Identifiers and times are
-- natural numbers; the database's generator of identifiers is a function, of which a counter says how
-- much is used. The clock readings, new lease tokens, and the rows that FOR UPDATE SKIP LOCKED skips
-- are arguments, and so are the mail provider, the object storage, the sinks and the configuration.
-- Texts are lists of UTF-16 code units; toLowerCase is modelled on ASCII letters and the Kelvin sign,
-- and takes other letters to be in lower case. A regular expression is a function that tests or scans.
-- The loops run over lists, so no fuel is needed, but for two: the attachment outbox has one turn for
-- each message that its limit allows, and the loop that strips a subject's prefixes has as much fuel
-- as the subject has characters, where each round removes one at least.
--
-- Not modelled: HTTP routes, JSON.parse, the projection of inbound mails, the services of the second
-- version (conversations, direct mails), webhooks, the configuration from the environment,
-- telemetry, logging, timers and connections. Constraints of the schema are no part of the model;
-- where a theorem needs distinct identifiers it says so.
pub mod Prelude
pub mod Database
pub mod Conversation
pub mod Delivery
pub mod Email
pub mod Requests
pub mod Sending
pub mod Outbox
pub mod Examples
pub mod Attachments
