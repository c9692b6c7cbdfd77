-- ===== src/Lib.antt =====
-- The danshi backend: a community for canteens, where users publish posts with images, machines and
-- people moderate them, and object storage and a CDN serve the images. This library models the parts
-- that decide who may act and what is published and served, and proves what makes them correct.
--
-- The parts and how they interact. A request runs in one database transaction (Transactions). Its
-- services check what the user may do (Access) and read pages of results (Pagination). A provider's
-- callback records the verdict on an image, sets its moderation, recomputes the posts that wait for
-- it, and appends an intent to an outbox in the same transaction (Moderation); an administrator's
-- verdict on a post does the same by hand, and a new post takes only images its author may use
-- (Posts). A worker then brings the object's ACL and the CDN's cache in line with the latest intent
-- (ImageAccess). An image whose first submission to moderation failed waits in a queue of its own,
-- whose worker submits it again and may apply a verdict at once (ImageRetry, which calls
-- Moderation). Callbacks with a wrong token are counted, and the review queue is measured, to raise
-- alerts (Alerts). Users sign up, log in and reset passwords with one-time codes that a worker mails;
-- sessions authenticate later requests until they are revoked, by their user or by a ban (Accounts).
-- Comments on a published post are moderated, form floors of replies, and are counted by a trigger of
-- the database (Comments).
--
-- The files:
--   Base: what the components share: Boolean tests on native numbers (Tests), lists measured by them
--     (Lists), tables and their UPDATEs (Rows), results of calls that may fail (Results), Go's text
--     functions (Texts), a Go int (Integers).
--   ImageAccess: internal/model/image_access.go and the rows (Delivery); the statements of
--     internal/repository/image_access.go (Outbox: enqueue, claim_due, update_claim,
--     release_superseded); internal/service/image_access_worker.go (Options, Backoff, and the
--     handlers in Worker: Commit, Submit, Observe, with process_claim at the top), whose outside
--     world is the record Ports. What is proved stands in Checks (the CHECK constraints and budgets,
--     handler by handler, and the statements of other workers in Statements and Others), Keys,
--     Leases and Completeness (claims), Handover (what a claim gives its processing and denies
--     other workers), Fencing (generations) and Submissions (calls of Submit).
--   Moderation: the tables (Data), the statements of internal/repository/moderation.go (Repository),
--     aggregatePostModeration of internal/service/post_write.go (Aggregate), and
--     internal/service/moderation_callback.go with internal/service/image_access_controller.go
--     (Callback; ManualReviewPost in Review and ReviewPost). Reconcile, Validation, Effects,
--     Acceptance, Duplicates, Desires, Agreement, Histories and Audit hold the proofs.
--   ImageRetry: internal/repository/image_moderation_retry.go (Queue) and
--     internal/service/image_moderation_retry_worker.go (Worker); Checks and Batches hold the proofs.
--   Posts: validateAndOrderImages of internal/service/post_write.go (Images); Accepted holds the
--     proofs.
--   Transactions: internal/infra/db (Queues) and internal/middleware/uow.go with
--     internal/httpx/errors.go (UnitOfWork); Atomicity holds the proofs.
--   Access: internal/authz/authz.go (Authz); Grants holds the proofs.
--   Pagination: internal/pkg/pagination/pagination.go (Params); Pages holds the proofs.
--   Alerts: CallbackAuthFailureMonitor (Monitor) and CheckReviewBacklog (Backlog) of
--     internal/service/moderation_alerting.go; Windows and Cooldown hold the proofs.
--   Accounts: internal/model/user.go and internal/model/email_delivery.go (Data, with all tables of
--     the component in the record Accounts); what a service returns, and the composition of its steps
--     by do blocks (Requests); the calls of other code (Externals); internal/service/auth_validation.go
--     and internal/pkg/usernamepolicy (Validation); internal/service/auth.go with
--     internal/repository/auth.go (Codes, Senders, Sessions, Tokens, Auth, Register);
--     internal/service/admin_users.go with internal/repository/admin_write.go (Administration);
--     internal/service/email_delivery.go with internal/repository/email_delivery.go (Deliveries,
--     Sending). History composes them: any sequence of requests and of the worker's transactions.
--     Attempts, Rests, Rate, Mailed, Retries and Rounds hold the proofs about single operations;
--     Revocation, Revoked, Shutout, Bans, Secrecy, Guards and Readable those about histories.
--   Comments: internal/model/comment.go (Data), the trigger of
--     migrations/00009_comment_visibility.sql (Counters), internal/repository/comment.go (Statements),
--     internal/service/comment_write.go (Payload, Notices, Write), and what internal/service/comment.go
--     and internal/service/admin_content.go do to a comment (Actions). Histories composes the requests.
--     Survival says what an invariant has to survive, for every history. Sums, Floors and Places say what
--     the counters and the places should be; Counted, Replies, Tallies, Insertion, Standing and Upheld
--     hold the proofs. Versions, Recorded and Archive are about the history of a comment.
--   The Tests of each component run its definitions at concrete inputs.
--
-- How the program is modelled. A function of the source has its name in antt's spelling. A table is
-- the list of its rows, a row is a record with the columns that the modelled code uses, a nullable
-- column is an option, and a time is a number of nanoseconds. A statement is a function on tables
-- with its WHERE clause, its conflict target and its SET clause written out; the row locks order
-- transactions and change no row. A handler of a worker takes and returns the state of the database;
-- the storage, the providers, the clock, the failure of a transaction and what other transactions
-- commit in between are parameters, which may answer differently each time (Ports, RetryPorts), so a
-- theorem holds for every interleaving of short transactions that its hypotheses on them allow. Of the
-- purge provider, the constraints assume that its job ids fit their column of 128 characters; a write
-- of a longer one would fail. A call with a deadline may answer with
-- an error. A request on accounts or comments is a function to a result or an error and the tables, and
-- a history is a list of requests; what a request draws at random, and its readings of the clock, are
-- arguments. In Moderation, where one transaction runs all statements, a statement that fails aborts
-- the transaction, and is no step of the model.
--
-- Bounds. No function takes fuel: the loops are over lists, or over the rounds that their argument
-- counts. Durations and identifiers are natural numbers; a machine integer is written out where its
-- limit matters, at the page numbers and their product (Pagination).
--
-- What is not modelled: the review of single records, the other services (the rest of posts, uploads,
-- profiles, the lists and counted likes of comments, dictionary, the administration of posts and tags),
-- the texts of the emails, the HTTP handlers and routes, the clients of storage, CDN, mail and
-- moderation providers, metrics and logs, configuration, code generators and the importer of
-- legacy data. Cryptography (HMAC, SHA-256, bcrypt, JWT), the parsing of mail addresses and Unicode's
-- tables are parameters without hypotheses.
-- The text and JSON columns that no modelled code reads are left out of the rows.
pub mod Alerts
pub mod Base
pub mod ImageAccess
pub mod Moderation
pub mod ImageRetry
pub mod Transactions
pub mod Accounts
pub mod Comments
pub mod Access
pub mod Pagination
pub mod Posts
