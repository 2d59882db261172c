-- ===== src/Lib.antt =====
-- A model of the core of the Stash It backend (Go): an HTTP API and a background worker over
-- PostgreSQL and Redis, which accept saved links, enrich them with what their pages say of
-- themselves, and file them into collections.
--
-- Parts, the files that model them, and the code they are translated from:
--
-- - Security/PasswordWork: internal/security/password_work.go, the limiter of concurrent Argon2id
--   runs. `Acquire`, `releaseOnce` and `release` are cut into their atomic steps (`react`), and any
--   number of goroutines take them in any order (`step`). The timer and the cancellation of a
--   context are steps of the environment.
-- - Security/VerificationCode: internal/security/verification_code.go, the codes of verification
--   mails; Security/VerificationCode/Digits says what they look like.
-- - RateLimit: internal/ratelimit/limiter.go and sliding.go. RateLimit/Redis and
--   RateLimit/SortedSets are the commands of Redis that the four Lua scripts call, as records of
--   operations with their documented effects as laws; RateLimit/Redis/Memory and
--   RateLimit/SortedSets/Memory fill them with stores in memory. RateLimit/Fixed holds
--   `incrementWithTTL`, `releaseOne`, `Allow` and `Release` of the fixed window, RateLimit/Sliding
--   the scripts and methods of the sliding window, RateLimit/Key `deriveKey`, RateLimit/Reply the
--   policies' checks and the wait. The specification of the sliding window is a log of all
--   admissions (RateLimit/Sliding/Log), which the stored set stands for.
-- - Middleware: internal/middleware/ratelimit.go, the budget of requests from one address, over the
--   fixed-window limiter.
-- - Database: the transactions of pgx that the repositories run: a view, what is durable, and the
--   ways in which a statement or a commit can fail, the lost reply of a commit included.
--   Database/Rules has one proof rule for each thing that the code of a transaction does.
-- - Auth/Session: internal/api/auth/session. The tables and the statements of queries.sql, with
--   the keys and what a deletion does to references (Auth/Session.antt), the transactions of
--   repository.go (Auth/Session/Repository) and service.go (Auth/Session/Service): sign-in, the
--   rotation of refresh tokens, revocation, the list of sessions and the cleanup.
--   Auth/Session/Operations runs any sequence of the calls that change the tables.
-- - Auth/Registration: internal/api/auth/registration. The rows (Auth/Registration.antt), the
--   statements of queries.sql with the keys, references and unique indexes of the migrations
--   (Auth/Registration/Statements), the transactions of repository.go (Opening: a registration or a
--   recovery is opened; Verification: codes; Finalization: accounts), and service.go and
--   service_validation.go (Service, Issuance, Accounts). Auth/Registration/Meeting is what a call
--   meets: statements and commits that fail, replies that are lost, and rows that others insert.
--   Auth/Registration/Operations runs any sequence of the calls, each with what others commit
--   between its steps. Auth/Registration/Soundness has the invariant of the tables; Guesses,
--   Granted, Issued, Finalized and Once are about single calls and what comes after them.
-- - Email: internal/email/budget.go, the budgets of verification mails, over the sliding window.
-- - Worker/Enrichment: internal/worker/enrichment and internal/enrichment/errors.go: a task reads a
--   page, which is an argument, records the outcome on the saved item and may schedule the next
--   task.
-- - Worker/Organization: internal/worker/organization: the transaction that files a saved item
--   under the platform of its page, and what its end means for the queue.
-- - Collections: internal/api/collection, over the same two tables: filing an item under a name
--   (Collections/Repository, `put_item`), deleting a collection with its items deleted or moved
--   (`delete_collection`), the checks of service.go (Collections/Service). Facts, Kept and Filing
--   are about the invariant of the tables, Outcomes about calls that run alone.
-- - Worker/Queue: internal/worker/queue/backoff.go, the delay before a retry.
-- - Base: tests, lists, rows with keys, results, signed integers and strings that the parts share.
--
-- How they interact: issuing a verification code (Auth/Registration/Issuance) reserves a slot in
-- both budgets of Email, which are sliding windows, stores the code and hands the mail to the
-- sender; a failed delivery may give the slot back. A social registration ends with a session
-- (`sign_in` calls `start_session` of Auth/Session/Service). The password work that a manual
-- finalization waits for is an argument of it (`Hashing`), and Security/PasswordWork models the
-- limiter by itself. The organization task follows enrichment.
--
-- Conventions. Numbers are native; `int64` counters of Redis and rates are signed (Base/Int).
-- Identifiers, digests and tokens are numbers, strings are lists of code points. Time is an
-- argument: milliseconds in the scripts, nanoseconds elsewhere, and the clocks of the host and of
-- the database are two arguments. Randomness (ids, tokens, members) is an argument too.
--
-- Fuel and bounds: the cleanup loop runs on the batches that its cap still allows (100 in all), so
-- that its fuel is the source's own bound and its end is a result and never missing; the backoff
-- loop recurs on its counter. Every other function is structural.
--
-- A call reads the clock of the host once. What others commit is a function on the tables; the
-- invariant asks of it what it asks of the calls.
--
-- Not modelled: the jitter of a retry (floating point), the clock drift between hosts, log lines,
-- the HTTP layer and its validation, the other middleware, and the features login, password reset,
-- the lists of collections, saved items, search and the reading of pages. HMAC-SHA256, SHA-256, Argon2id, the
-- signature of access tokens, `strings.ToLower` and PostgreSQL's `lower(btrim(name))` are arguments.
pub mod Auth
pub mod Base
pub mod Collections
pub mod Database
pub mod Email
pub mod Middleware
pub mod RateLimit
pub mod Security
pub mod Worker
