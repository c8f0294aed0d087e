-- ===== src/Lib.antt =====
-- Treasury OS, the backend under backend/app: the rights of users on legal entities, the
-- reconciliation of bank statements with the treasury ledger, credit facilities, the funding actions
-- that use them, and the interest of investments.
--
-- How the parts interact. A run of the reconciliation belongs to one entity, one bank account and
-- one period. The matching engine goes over the run's bank rows, asks for candidate ledger rows,
-- scores them and writes suggestions. The derivation of exceptions reads the suggestions, the match
-- groups and the recorded rejections, and describes what is left as open items, which a
-- synchronization inserts, and users then investigate, resolve, close, reject and reopen. Users
-- accept or reject the proposals: an acceptance claims the transactions, a rejection synchronizes.
-- These endpoints ask the access checks first, and every action on an item adds a history row and an
-- audit row in the same transaction.
--
-- Credit facilities keep balances of their own: a drawdown is submitted, approved and executed, which
-- draws on the facility and perhaps on one of its sub-limits, and the payment of a repayment frees
-- them. A funding action only links to a drawdown or a repayment, and is executed once the linked row
-- has been. Investments are placed, rebooked, rolled over and settled, each time with a row of the cash ledger.
--
-- The files.
--   Base, Base/*: tests on native numbers, lists as queries, outcomes with HTTP errors.
--   Text: texts as lists of code points, with the string methods that the services call.
--   Auth: backend/app/models/rbac.py, backend/app/auth/authorization.py (AuthorizedScope,
--     get_authorized_scope, assert_entity_access, apply_entity_scope, resolve_scope_entity_ids,
--     apply_resolved_entity_scope, assert_record_belongs_to_authorized_entity), and
--     _grants_permission of backend/app/auth/dependencies.py.
--   Reconciliation/Records, Audit, Store: the tables of backend/app/models/reconciliation.py,
--     bank_statement.py, treasury_transaction.py and the audit trail, and the whole database as one
--     record of tables.
--   Reconciliation/Scoring: backend/app/services/reconciliation_scoring.py and
--     reconciliation_normalization.py.
--   Reconciliation/Candidates, Engine, MatchingRun: reconciliation_candidate_generation.py and
--     reconciliation_matching_engine.py.
--   Reconciliation/Derivation, Exceptions: derive_open_item_specs of
--     reconciliation_open_item_service.py.
--   Reconciliation/Notes, Workflow: the checks of texts, the state machine and the actions of the
--     same file.
--   Reconciliation/WorkQueue: the endpoints of backend/app/api/v1/reconciliation_open_items.py that
--     act on an item.
--   Reconciliation/Sync: _persist_specs and sync_open_items_for_run of
--     reconciliation_open_item_service.py.
--   Reconciliation/Proposal, DecisionRecord, Decision:
--     backend/app/services/reconciliation_match_decision_service.py
--     and the unique indexes of reconciliation_accepted_claims, from the migration that adds them.
--   Reconciliation/Session: sync_run_open_items, and _authorized_proposal and _decide of
--     backend/app/api/v1/reconciliation_match_proposals.py, and sessions of these endpoints and those
--     of the work queue.
--   Dates: the comparisons and months of Python's dates that the schedules use.
--   Facility/Records, Store, Utilization, Service, Balances, Endpoints, Drawdowns, Repayments,
--     Covenants, Session, Schedule: backend/app/models/facility.py, services/facility_service.py,
--     services/facility_engine.py, services/drawdown_validation_service.py and the endpoints of
--     api/v1/facilities.py that change rows, with sessions of them.
--   Facility/Book, Moves: an abstract machine of balances; Steps, RepaymentSteps and Refinement
--     relate the endpoints to it. Validation, Accounts, Coverage, Conservation, Within, Limits, Final,
--     Settled, Lifecycle, Amortization: their properties.
--   Funding/Actions, Workflow: backend/app/services/funding_action_validation.py and the actions of
--     backend/app/api/v1/funding.py, in sessions with the endpoints of facilities. Backed and Links:
--     their properties.
--   Investment/Engine, Schedule: backend/app/services/investment_engine.py. Proceeds and Tiling: its
--     properties.
--   Investment/Records, Service, Rollover, Settlement: backend/app/models/investment.py and, of
--     backend/app/services/investment_service.py, place_investment, settle_maturity,
--     rollover_investment and rebook_investment with what they call. LedgerRows and CashLinks: their
--     properties.
--   Tests, Tests/*: a small company and runs of the code on it.
--
-- How the code is read. Amounts of statements and of the ledger are never negative and are counted
-- in cents, dates are ordinals, ids and currency codes are numbers, and a fresh UUID is the next
-- number of a counter. Texts that the code composes from values are constructors with those values.
-- Confidence is in whole points, and the amount tolerance in thousandths of a percent. Python's
-- tables of upper case, lower case and letters are a parameter. Sets are lists; a query is a filter
-- of a table, and one without ORDER BY returns the rows in the table's order. A raised HTTP error
-- rolls the transaction back, and the row lock on an item makes the calls on it follow one another,
-- so a session is a list of requests. A violated unique index is the 409 that the code maps it to.
-- The session does not flush by itself (backend/app/db/session.py: autoflush=False): what the matching
-- engine adds is pending, and unseen by its queries, until its pass flushes. The other services flush
-- or execute what they write before they query again.
-- The amounts of facilities and investments are signed, in cents, and the rates are in millionths of
-- a percent; products and quotients are exact up to the code's own rounding, so that the 28 digits of
-- Python's decimals are never met. The calendar date of an ordinal is a parameter where a schedule
-- needs one, and years past 9999 are not refused.
--
-- Loops. Those of the modelled code that run over a list or a count are structural recursion. The
-- loop of the schedule of periodic interest is on fuel, one more than the months from the start to
-- the maturity; each round goes on by a month at least.
--
-- Not modelled: request parsing and Pydantic validation, SQL and the ORM, the read-only endpoints,
-- foreign keys and unique constraints of the tables of facilities, the groups that the advanced
-- matching proposes (they are data of the store), the life of a reconciliation run, statement import,
-- the dashboards, costs and capacity of funding, the endpoints of
-- investments, their early termination in the store, forecasts, cash position,
-- spreadsheets, authentication and the frontend.
pub mod Auth
pub mod Base
pub mod Dates
pub mod Facility
pub mod Funding
pub mod Investment
pub mod Reconciliation
pub mod Tests
pub mod Text
