-- ===== src/Lib.antt =====
-- A model of the backend of CFactory, the cockpit that follows one unit of work through the three
-- services PFactory (plan), AIFactory (code) and TFactory (test).
--
-- The program's parts, and the files that model them:
--
-- - Auth.antt: apps/backend/cfactory/auth.py. API keys, parsed from one setting into a table, and
--   the decision on a request. Auth/Keys and Auth/Decisions hold the proofs.
-- - Audit.antt: apps/backend/cfactory/audit.py. Every confirmed action is appended to a chain of
--   rows, each with the HMAC of its fields and of the row before it. Audit/Entry has the row, its
--   canonical text and its hash; Audit/Scan the walk that classifies each row (`_classify`,
--   `_scan`, `check`, `verify`); Audit/Trail the repository (`record`, `list`, `report`). Chain,
--   Links, Sound, Tamper, Edits, Deletions, Forks and Verdict hold the proofs. Audit/Race has the
--   transactions of several appenders as a step relation.
-- - Status.antt: apps/backend/cfactory/_contracts/factory_contracts/__init__.py and
--   apps/backend/cfactory/status_taxonomy.py. The vocabularies and classifiers by which the other
--   parts read the statuses of the three services.
-- - WorkItem.antt: apps/backend/cfactory/store.py, the classes of models.py it keeps, usage.py and
--   needs_you.py. One row for a correlation key gathers what the three services report. WorkItem/
--   Usage has token usage and its roll-ups; Slices the part of a row that an event of one service
--   changes; Table the table with its unique key and its tenants; Ingest `upsert_from_event`;
--   Snapshots `upsert_snapshot`; Reconcile the sweeps, the liveness of a row and `needs_human`.
--   Rows, Threading, Redelivery, Conflicts, Writes, Isolation, Unique, Totals, Kept, Annotations,
--   Polls, Heartbeat, Series and Sweeps hold the proofs.
-- - Cards.antt: apps/backend/cfactory/cards.py. The cards of a planning board, one row for a tenant's
--   key. Cards/Keys has the keys that are assigned and the references of issues; Cards/Board the
--   store (`create`, `update`, `delete` and the look-ups), which marks a deleted row and keeps it.
--   Numbers, Fresh, Indexed, Found, Refine and Tombstones hold the proofs. Cards/Spec has the board as
--   a map from keys to cards, with what each call answers and changes; Calls and Refine tie the store
--   to it. Cards/Lease has `claim_import_lease`, its read and its write as steps of their own, and
--   what holds of the leases.
-- - Actions.antt: `execute_action` of apps/backend/cfactory/actions.py, the chain of requests by which
--   a confirmed action is carried out. Actions/Chain holds the proofs.
-- - Intake.antt: apps/backend/cfactory/card_intake.py. A card goes through the stages plan, code and
--   test, each owned by a service. Intake/Stages has the records of the stages and what refuses one;
--   Brief the text that is sent; Prepare the payloads and the key read from an answer; Dispatching
--   `_send`, `dispatch_card`, `dispatch_stage` and `start_sequence`; Writeback `_settle`, `_advance`
--   and `apply_status`, with `ingest_event` of apps/backend/cfactory/routes_events.py. A call takes
--   the state, a `World` of card rows and requests sent, and gives it back beside its result, also
--   where it raises. Held, Presses, Once, Verdicts, Calls, Stale and Carried hold the proofs.
-- - Repositories.antt: the methods of the card store in apps/backend/cfactory/cards.py that write git
--   repositories and resolve the one that a card means, over the rows of
--   apps/backend/cfactory/git_connections.py. Defaults, Served, Steps and Gone hold the proofs.
-- - Rate.antt: apps/backend/runners/github/rate_limiter.py. The token bucket that limits the calls of
--   a git host, in parts of a token, with the clock as an argument; Rate/Waiting has the loop
--   `acquire`, on fuel: for a bucket that never refills, as many tries as its timeout has whole
--   seconds, and two, since each sleep is then a second; the sleep itself is a parameter.
--   Rate/Bounds and Rate/Waiting have the proofs. The program computes in floating point, which
--   rounds; the model is exact, and a delay is kept as a quotient.
--
-- The work item store reads statuses by the classifiers of Status, which decide what is terminal,
-- dead or in review. A writer looks up its row in the table as it saw it, and writes to the table
-- as it is by then, a row that was there as a whole; the two are the same but in a race. Costs are whole numbers of a smallest unit,
-- and times whole microseconds.
--
-- The audit trail takes the key store of Auth, since an actor that is a key is redacted before it
-- is stored.
--
-- Text is a list of code points (Prelude/Texts); Prelude/Strings has the methods of Python's `str`
-- that are called, with the letter case of ASCII. What lies outside the repository is a parameter:
-- HMAC-SHA256, SHA-256 and `strftime` are the fields of the record `Crypto`, and what is relied on
-- is the record `IsCrypto`. A transaction of the database is one step. Code that may raise returns
-- `Result`; code that changes a state too gives the state back beside it (Prelude/Exec). Log lines and the texts of messages written for a reader are left out.
-- Of the store, the set-up of the engine, the mapping of a row for the reader and the deadlines read
-- from the environment are left out; of the cards, the order of a list, the comments and the import;
-- of the repositories, the validation of their fields and their patches; of the actions, how they
-- are proposed. The git target of a card, the HTTP client and `urlsplit` are arguments. The other
-- parts of the backend (the rest of the rate limiter, the progress poll, git hosts, the copilot,
-- routes) are not modelled.
pub mod Prelude
pub mod Auth
pub mod Actions
pub mod Audit
pub mod Status
pub mod WorkItem
pub mod Rate
pub mod Repositories
pub mod Cards
pub mod Intake
