-- ===== src/Lib.antt =====
-- Verification of the BabyPark integration: the parts of the copilot that decide what is said in public
-- on whose authority and at most once, and the prices of the exporter.
--
-- * EpisodeStore (src/copilot/episode-store.mjs): the episodes of a conversation, their messages, slots
--   and presented candidates. `Input` has the validation of arguments, `Tables` the tables of the
--   SQLite file as lists of rows with their statements, `Operations` the body of each transaction,
--   `Api` the public methods (beginEpisode, appendSourceMessage, setStableSlots,
--   recordClarificationPrompt, clearClarificationContext, closeEpisode) and histories of calls. The
--   clock and the fresh ids are arguments. A transaction that throws leaves the tables as they were.
--   `Api` has the reads loadActive and getEpisode too. Creating, opening and closing the file is not
--   modelled.
-- * Routing (src/copilot/first-line-routing-planner.mjs): what the customer's open turn is, and the basis
--   of a confirmed clarification. `Snapshot` has the data, `Planner` the checks and projections. The
--   planner reads the ids and versions of the episode that the store keeps. Certification of an object
--   is a flag of the snapshot, since it is membership in a WeakSet.
-- * Knowledge (src/copilot/knowledge/store.mjs, publication-policy.mjs, schema.mjs): the append-only ledger
--   of knowledge revisions. `Records` has the rows, `Policy` the publication policy, `Ledger` verifyLedger
--   and revisionHistoryState, `Transitions` approveRevision, withdrawRevision, revokeRevision and
--   publishRevision. SHA-256, canonical JSON and timestamps, the validation of a revision, civil days
--   and the exception graph are fields of `Services`. `Authority` has authoritySnapshot.
--   Drafting is not modelled.
-- * Access (src/copilot/knowledge-control/rbac.mjs): normalizeActorGrants, authorizeKnowledgeAction and
--   authorizeRevisionAction, in `Rbac`; `Allowed` says what a grant's own texts allow. The HTTP handlers
--   ask it before they call the methods of Knowledge.
-- * Actions (src/copilot/first-line-state-store.mjs): the public actions of the first line, from their
--   claim to their delivery or withdrawal. `Tables` has the rows, `Queries` the subqueries on them.
--   `Lifecycle`, `Triggers` and `Owners` have the BEFORE triggers of public_actions, conversation_events
--   and continuation_owners as tests on the old and the new row, and `Writes` the statements with the
--   AFTER triggers that they fire. `Sending` (claimNextPublicAction, markActionSending,
--   markActionUncertain), `Withdrawal` (cancelActionBeforeSend, markActionStaleBeforeSend) and
--   `Confirmation` (confirmPublicActionFromLedger, the recovery barrier) have the methods. The clock is
--   read by the method and again by the triggers, so it is two arguments; the triggers of one statement
--   all read one value, where the source reads the clock at each of them. What the store checks of rows
--   that it has stored, whenever it reads them, is an argument of the methods. The planner reads the
--   same rows through a snapshot, which is not built here.
--   `Ingest` has ingestConversationEvent, and `Gate` has src/copilot/first-line-public-action-gate.mjs, the last
--   checks before a send: `gate_before` until the conversation's source is asked, and `gate_after` from its
--   answer on, on a database that may have changed meanwhile. Each method of the store is a
--   transaction of its own, so an error of the gate leaves the events that it has ingested.
--   Preparation, the human protocol and acknowledgements are not modelled; a theorem on a row says what
--   it assumes of its preparation.
-- * Exporter (apps/drupal-exporter/src/decimal-money.mjs, php-combination.mjs): prices with five decimals
--   and the combinations of options. `Combination` has the parser and the canonical id, `Money` has
--   parseDecimal, toMinorUnits, roundPhpNumberFormat, toMinorUnitsWithDisplayPrecision and formatDecimal
--   on texts as lists of code points. It shares no state with the other parts.
--
-- Base holds the shared names: JavaScript values, results, Boolean tests, lists over native numbers.
-- Every loop of these parts runs over a list or a count and is structural, but for the printing of a
-- number, whose fuel is one more than the number: it has fewer digits. Numbers that the
-- code checks as safe integers are bounded by 2 ^ 53 - 1 where the code bounds them.
-- Not modelled: HTTP, configuration, processes, the model calls, the catalog and its recovery, and
-- the Drupal senders.
mod Base
pub mod EpisodeStore
pub mod Routing
pub mod Knowledge
pub mod Exporter
pub mod Access
pub mod Actions
