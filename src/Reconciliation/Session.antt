-- ===== src/Reconciliation/Session.antt =====
-- A session of the endpoints that write: those that act on an open item, the synchronization of a
-- run (backend/app/api/v1/reconciliation_open_items.py: `sync_run_open_items`) and the decision of a
-- proposal (backend/app/api/v1/reconciliation_match_proposals.py: `_authorized_proposal`,
-- `_decide`). Each is one transaction; the row locks and the unique indexes make those that touch
-- the same rows follow one another.
pub mod Invariants
use treasury_os_app.Base.{
  ℕ, Bool, true, false, Option, none, some, List, [], ◌∷◌, if◌then◌else◌, Outcome, ok, raised,
  bad_request, not_found, ◌>>=◌, ◌>>◌, require,
}
use treasury_os_app.Text.{Text}
use treasury_os_app.Auth.{bank_reconciliation, approve, execute, User, assert_entity_access}
use treasury_os_app.Reconciliation.Records.{MatchProposalKind, MatchDecisionType, ReconciliationRun}
use treasury_os_app.Reconciliation.Store.{Store, get_run}
use treasury_os_app.Reconciliation.Proposal.{Proposal, run_of, load_proposal}
use treasury_os_app.Reconciliation.DecisionRecord.{DecisionResult, is_completed}
use treasury_os_app.Reconciliation.Decision.{or_not_found, decide_proposal}
use treasury_os_app.Reconciliation.Sync.{SyncResult, sync_open_items_for_run}
use treasury_os_app.Reconciliation.WorkQueue.{Call, can_view, or_rollback, serve}

pub sync_run_open_items : Store → User → ℕ → Outcome (SyncResult × Store)
sync_run_open_items s user run_id = do
  run ← or_not_found (get_run run_id s.runs)
  require (can_view s.entities user run.legal_entity_id) not_found
  _ ← assert_entity_access s.entities user bank_reconciliation execute (some run.legal_entity_id)
  require (is_completed run.status) bad_request
  ok (sync_open_items_for_run s run (some user.id))

-- `_authorized_proposal`, for APPROVE
pub authorized_proposal : Store → User → MatchProposalKind → ℕ → Outcome (Unit {0})
authorized_proposal s user kind k = do
  p ← or_not_found (load_proposal s kind k)
  run ← or_not_found (get_run (run_of p) s.runs)
  require (can_view s.entities user run.legal_entity_id) not_found
  _ ← assert_entity_access s.entities user bank_reconciliation approve (some run.legal_entity_id)
  ok tt

-- `_decide`
pub decide :
    Store
    → User
    → MatchProposalKind
    → ℕ
    → MatchDecisionType
    → Option Text
    → Outcome (DecisionResult × Store)
unfolding authorized_proposal
decide s user kind k decision reason =
    authorized_proposal s user kind k >>= λ _. decide_proposal s kind k user.id decision reason

-- A request to one of the endpoints.
pub data Action : Type 0 where
  on_item : Call → Action
  on_run : User → ℕ → Action
  on_proposal : User → MatchProposalKind → ℕ → MatchDecisionType → Option Text → Action

abbrev pub store_of {ℓ} : {A : Type ℓ} → Outcome (A × Store) → Outcome Store
store_of (ok (a, s)) = ok s
store_of (raised e) = raised e

pub respond : (ℕ → Bool) → Store → Action → Outcome Store
unfolding sync_run_open_items decide
respond is_alpha s (on_item c) = serve is_alpha s c.now c.user c.item_id c.request
respond is_alpha s (on_run user k) = store_of (sync_run_open_items s user k)
respond is_alpha s (on_proposal user kind k decision reason) =
    store_of (decide s user kind k decision reason)

pub respond_all : (ℕ → Bool) → Store → List Action → Store
respond_all is_alpha s [] = s
respond_all is_alpha s (a ∷ rest) = respond_all is_alpha (or_rollback s (respond is_alpha s a)) rest
