-- ===== src/Reconciliation/Store.antt =====
-- The database as the reconciliation services see it: one list for each table. A query is a filter
-- of its list; one without ORDER BY returns the rows in the list's order. New rows go to the end,
-- but the two logs, which are only added to, are listed newest first. A fresh UUID is the number
-- `next_id`. A request's transaction is a function on the whole store.
--
-- The session does not flush by itself (backend/app/db/session.py: autoflush=False). The suggestions
-- that the matching engine adds are `pending`, and no query sees them before the flush at the end of
-- its pass. The other services flush, or execute, their writes before they query again, so theirs
-- are in the tables at once.
use treasury_os_app.Base.{ℕ, Option, List, [], ◌∷◌, ◌==◌, if◌then◌else◌, find}
use treasury_os_app.Auth.{LegalEntity, User}
use treasury_os_app.Reconciliation.Records.{
  BankTransaction, LedgerTransaction, ReconciliationRun, ReconciliationConfiguration,
  MatchSuggestion, MatchGroup, MatchGroupMember, MatchDecision, AcceptedClaim, OpenItem, ItemEvent,
}
use treasury_os_app.Reconciliation.Audit.{AuditEvent}

pub record Store : Type 0 where
  pub entities : List LegalEntity
  pub users : List User
  pub banks : List BankTransaction
  pub ledgers : List LedgerTransaction
  pub runs : List ReconciliationRun
  pub configurations : List ReconciliationConfiguration
  pub suggestions : List MatchSuggestion
  pub groups : List MatchGroup
  pub members : List MatchGroupMember
  pub decisions : List MatchDecision
  pub claims : List AcceptedClaim
  pub items : List OpenItem
  pub events : List ItemEvent
  pub audits : List AuditEvent
  pub pending : List MatchSuggestion
  pub next_id : ℕ

-- The tables that the derivation of exceptions reads, and does not write.
pub record Evidence : Type 0 where
  pub banks : List BankTransaction
  pub ledgers : List LedgerTransaction
  pub configurations : List ReconciliationConfiguration
  pub suggestions : List MatchSuggestion
  pub groups : List MatchGroup
  pub members : List MatchGroupMember
  pub decisions : List MatchDecision

abbrev pub evidence : Store → Evidence
evidence s = record {
  banks = s.banks;
  ledgers = s.ledgers;
  configurations = s.configurations;
  suggestions = s.suggestions;
  groups = s.groups;
  members = s.members;
  decisions = s.decisions;
}

-- `db.get` on each table
abbrev pub get_item : ℕ → List OpenItem → Option OpenItem
get_item k = find (λ (i : OpenItem). i.id == k)

abbrev pub get_user : ℕ → List User → Option User
get_user k = find (λ (u : User). u.id == k)

abbrev pub get_bank : ℕ → List BankTransaction → Option BankTransaction
get_bank k = find (λ (b : BankTransaction). b.id == k)

abbrev pub get_ledger : ℕ → List LedgerTransaction → Option LedgerTransaction
get_ledger k = find (λ (t : LedgerTransaction). t.id == k)

abbrev pub get_run : ℕ → List ReconciliationRun → Option ReconciliationRun
get_run k = find (λ (r : ReconciliationRun). r.id == k)

abbrev pub get_suggestion : ℕ → List MatchSuggestion → Option MatchSuggestion
get_suggestion k = find (λ (s : MatchSuggestion). s.id == k)

abbrev pub get_group : ℕ → List MatchGroup → Option MatchGroup
get_group k = find (λ (g : MatchGroup). g.id == k)

-- the flush of a changed item
abbrev pub set_item : OpenItem → List OpenItem → List OpenItem
set_item i [] = []
set_item i (j ∷ js) = (if j.id == i.id then i else j) ∷ set_item i js
