-- ===== src/Lib.antt =====
-- A verification library of imap-mcp: the parts of the program that decide who may do what, and
-- those that keep its cache and its deliveries right.
--
-- HttpAuth models internal/httpauth/httpauth.go: a token list becomes an authenticator (New), a
-- request becomes a principal (lookup, Middleware), and a route asks for a scope (RequireScope).
-- Mcp models internal/mcp/scopes.go, which asks the same principal for the scope of a tool and of
-- its arguments.
--
-- Trust models the gates of the inbound command channel: Trust/Envelope the parser and the signed
-- form of internal/trust/envelope.go, Trust/Checks and Trust the checks and the gates of
-- internal/trust/trust.go in the order of Evaluate, Trust/Nonces the table of
-- internal/db/nonces.go, and Trust/Default the check of internal/config/config.go that a channel
-- has a gate. Inbound models internal/inbound: parse.go builds the message that Evaluate reads,
-- processor.go publishes what it decides; Inbound/Watcher models the polls of watcher.go.
--
-- Cache models the messages, the enrichment queue and the sync state of internal/db/cache.go; Sync
-- the data of internal/sync/source.go and the helpers of internal/sync/syncer.go, and Sync/Cycle
-- its syncFolder, which calls the operations of Cache in the order of the code, Sync/Account its
-- syncAccount with resolveFolder of source.go and the folder lists of internal/config/config.go.
-- Query models internal/query/query.go: Query/Views the views, Query/Values the values,
-- Query/Filters and Query/Columns the parts of a statement, and Query the compiler. Webhook models
-- internal/webhook/webhook.go, Webhook/Outbox internal/db/webhooks.go, and Webhook/Dispatch
-- internal/webhook/dispatch.go; Webhook/Lifecycle puts their operations together as steps.
--
-- Enrichment models internal/enrichment: the rows of the queue and what an item does to them
-- (processItem, fail, markDone, applyResult of pipeline.go) in Enrichment, the batches of RunOnce
-- with their lanes and workers in Enrichment/Batch, the gates of gates.go with their memos in
-- Enrichment/Gates and ParseWindow of internal/config/config.go in Enrichment/Gates/Window, the
-- vector blob in Enrichment/Blob, the reading of a classification in Enrichment/Tags, the fallback
-- of providers.go in Enrichment/Providers and the counts in Enrichment/Stats. Its rows are the
-- queue that Cache fills. Where the program stops in the last attempt of an item, requeue leaves a
-- pending row with no attempt left; what is proved of settled queues does not cover such a queue.
--
-- Mail models the operations of internal/service/mail.go over a client of the server, whose laws
-- are in Mail/Imap, and Mail/Pages the range of a page. Rules models the stored rules of
-- internal/db/rules.go with the checks of internal/service/rules.go, and Rules/Run its applyRule
-- and RunActiveRules, which call the operations of Mail. The gate of new senders,
-- internal/service/newsender.go, is in Rules/Signals (texts), Rules/Gate (the state database, the
-- owner and isNew), Rules/Scores (signals and judge) and Rules/Filter (released, filter and
-- record). Verdict models the question and the answer of internal/verdict/verdict.go. Prelude holds
-- what they share.
--
-- A file beside these that is named for a property holds its lemmas; the files named Tests run the
-- definitions and apply the theorems at concrete values.
--
-- Numbers are natural numbers, and int64 arithmetic that may overflow is written out (Prelude/Int).
-- A text is the list of its bytes, and the functions of package strings work on ASCII. SHA-256,
-- HMAC-SHA256, regexp's FindString, time.Parse, Format and the HTTP client are parameters of the
-- definitions that call them. A map is the list of its entries, a table the list of its rows;
-- SQLite's statements succeed unless a constraint stops them, and a nonce table may fail as a
-- whole. Times are nanoseconds since the zero time in Trust and since 1970 in Query, Unix seconds
-- elsewhere. A float64 of Query or Rules/Gate is what the code reads of it, and one of Verdict a
-- value of any ordered type. A server gives its answers as functions of what it is asked, or, in
-- Mail, Rules and Inbound/Watcher, is a client with a state of its own. The watcher polls once more
-- than the number of ticks it is given. A vector is the list of the 32-bit patterns of its numbers.
-- The workers of an enrichment batch take turns: a list of turns says which starts or ends next,
-- and a turn that none can take is passed over; what is left when the list ends is finished in
-- order.
--
-- A loop that the code bounds by a shrinking slice has that slice's length as its fuel, which is
-- always enough since every round takes at least one element: delete_batches, fetch_loop, and
-- digits for a decimal numeral. The run_once of Webhook/Dispatch gives none when its fuel runs out;
-- a batch uses up an attempt of a pending delivery.
--
-- Not modelled: the IMAP and SMTP protocols, the HTTP servers and their JSON, the HTTP calls of the
-- enrichment providers, the float arithmetic of the rate limiter (a function of the world says how
-- much backfill it grants), the search by vectors, the choice of an account's connection by the
-- pool and its failure, the preview of a hold, the learned rules and the digests behind a full run,
-- screening, unsubscribing, migrations and encryption of the database files, and the command line.
-- Columns that no modelled operation reads back are left out of the rows.
pub mod Prelude
pub mod HttpAuth
pub mod Mcp
pub mod Trust
pub mod Inbound
pub mod Enrichment
pub mod Mail
pub mod Rules
pub mod Verdict
pub mod Cache
pub mod Sync
pub mod Query
pub mod Webhook
