-- ===== src/Reconciliation/Session/Invariants.antt =====
-- What holds of the database after any session.
use treasury_os_app.Base.{
  ℕ, ◌<◌, ◌≡◌, refl, sym, ap, ◌∙◌, subst, Bool, Option, some, List, [], ◌∷◌, ◌++◌, ◌==◌, find-All,
  Outcome, ok, raised, bad_request, not_found, arith, >>=-eq_ok, ◌>>=◌, require,
}
use mathlib.Core.List.{append_assoc}
use treasury_os_app.Text.{Text}
use treasury_os_app.Auth.{User, bank_reconciliation, execute, assert_entity_access}
use treasury_os_app.Reconciliation.Records.{
  MatchProposalKind, MatchDecisionType, ReconciliationRun, OpenItem, AcceptedClaim,
}
use treasury_os_app.Reconciliation.Store.{Store, get_run}
use treasury_os_app.Reconciliation.Workflow.History.{perform-Describes}
use treasury_os_app.Reconciliation.WorkQueue.{Call, can_view, or_rollback, serve, required, commit}
use treasury_os_app.Reconciliation.WorkQueue.Access.{serve-ok, authorized_item-ok}
use treasury_os_app.Reconciliation.WorkQueue.Log.{last_status, IsTracked, serve-IsLogged}
use treasury_os_app.Reconciliation.Sync.{SyncResult, sync_open_items_for_run}
use treasury_os_app.Reconciliation.Sync.Frame.{sync-frame}
use treasury_os_app.Reconciliation.Sync.History.{
  HasFreshIds, IsRecorded, last_status-fresh, sync-IsRecorded,
}
use treasury_os_app.Reconciliation.DecisionRecord.{DecisionResult, is_completed}
use treasury_os_app.Reconciliation.Decision.{or_not_found, decide_proposal}
use treasury_os_app.Reconciliation.Decision.Claims.{
  HasUniqueClaims, Extends, decide_proposal-HasUniqueClaims,
}
use treasury_os_app.Reconciliation.Decision.History.{decide_proposal-IsRecorded}
use treasury_os_app.Reconciliation.Session.{
  sync_run_open_items, authorized_proposal, decide, Action, on_item, on_run, on_proposal, store_of,
  respond, respond_all,
}

-- The history of the open items is complete, fresh ids are fresh, and no transaction is claimed twice.
abbrev pub IsSound : Store → Type 0
IsSound s = IsRecorded s × HasUniqueClaims s.claims

-- The second store is sound and has all claims of the first.
abbrev pub Advances : Store → Store → Type 0
Advances s t = IsSound t × Extends s.claims t.claims

serve-HasFreshIds :
    (is_alpha : ℕ → Bool) (s : Store) (c : Call) (t : Store)
    → serve is_alpha s c.now c.user c.item_id c.request ≡ ok t
    → IsRecorded s
    → HasFreshIds t × (t.claims ≡ s.claims)
unfolding commit
serve-HasFreshIds f s c t h (l, fresh) =
    let (i, r, found, _, done, e) = serve-ok f s c.now c.user c.item_id c.request t h in
    let (row, _, _) = authorized_item-ok s c.user c.item_id (required c.request) i found in
    let known =
      find-All (IsTracked s.events) (λ (j : OpenItem). j.id == c.item_id) s.items l.tracked row in
    let named = (perform-Describes f i c.now c.user.id c.request r done).0 in
    subst (λ (t : Store). HasFreshIds t × (t.claims ≡ s.claims)) (sym e)
      ((subst (λ k. k < s.next_id) (sym named) (used i known.0), fresh), refl)
  where
    used : (i : OpenItem) → last_status i.id s.events ≡ some i.status → i.id < s.next_id
    used i k = ground (arith, last_status-fresh s.next_id i.id s.events fresh)

serve-Advances :
    (is_alpha : ℕ → Bool) (s : Store) (c : Call) (t : Store)
    → serve is_alpha s c.now c.user c.item_id c.request ≡ ok t
    → IsSound s
    → Advances s t
serve-Advances f s c t h (recorded, unique) =
    let (fresh, same) = serve-HasFreshIds f s c t h recorded in
    (
      (
        (serve-IsLogged f s c.now c.user c.item_id c.request t h recorded.0, fresh),
        subst HasUniqueClaims (sym same) unique,
      ),
      ([], same),
    )

sync-Advances :
    (s : Store) (run : ReconciliationRun) (actor : Option ℕ)
    → IsSound s
    → Advances s (sync_open_items_for_run s run actor).1
sync-Advances s run actor (recorded, unique) =
    let same = ap (λ (t : Store). t.claims) (sync-frame s run actor) in
    ((sync-IsRecorded s run actor recorded, subst HasUniqueClaims (sym same) unique), ([], same))

-- the run that a synchronization which goes through was made for
sync_run_open_items-ok :
    (s : Store) (user : User) (k : ℕ) (out : SyncResult × Store)
    → sync_run_open_items s user k ≡ ok out
    → (run : ReconciliationRun) × (out ≡ sync_open_items_for_run s run (some user.id))
unfolding sync_run_open_items
sync_run_open_items-ok s user k out h =
    let last : ReconciliationRun → Outcome (SyncResult × Store) = λ run.
      require (is_completed run.status) bad_request >>= λ _.
      ok (sync_open_items_for_run s run (some user.id)) in
    let may : ReconciliationRun → Outcome (SyncResult × Store) = λ run.
      assert_entity_access s.entities user bank_reconciliation execute (some run.legal_entity_id)
      >>= λ _. last run in
    let sees : ReconciliationRun → Outcome (SyncResult × Store) =
      λ run. require (can_view s.entities user run.legal_entity_id) not_found >>= λ _. may run in
    let (run, _, h₁) = >>=-eq_ok (or_not_found (get_run k s.runs)) sees h in
    let (_, _, h₂) =
      >>=-eq_ok (require (can_view s.entities user run.legal_entity_id) not_found) (λ _. may run)
        h₁ in
    let (_, _, h₃) =
      >>=-eq_ok
        (assert_entity_access s.entities user bank_reconciliation execute
          (some run.legal_entity_id))
        (λ _. last run) h₂ in
    let (_, _, h₄) =
      >>=-eq_ok (require (is_completed run.status) bad_request)
        (λ _. ok (sync_open_items_for_run s run (some user.id))) h₃ in
    (run, ground arith)

store_of-ok {ℓ} :
    {A : Type ℓ} (o : Outcome (A × Store)) {t : Store}
    → store_of o ≡ ok t
    → (a : A) × (o ≡ ok (a, t))
store_of-ok (ok (a, s)) h = (a, ground arith)
store_of-ok (raised e) h = cc

decide-Advances :
    (s : Store) (user : User) (kind : MatchProposalKind) (k : ℕ) (decision : MatchDecisionType)
    (reason : Option Text) (out : DecisionResult × Store)
    → decide s user kind k decision reason ≡ ok out
    → IsSound s
    → Advances s out.1
unfolding decide
decide-Advances s user kind k decision reason out h (recorded, unique) =
    let (_, _, h₁) =
      >>=-eq_ok (authorized_proposal s user kind k)
        (λ _. decide_proposal s kind k user.id decision reason) h in
    let (still, kept) =
      decide_proposal-HasUniqueClaims s kind k user.id decision reason out h₁ unique in
    ((decide_proposal-IsRecorded s kind k user.id decision reason out h₁ recorded, still), kept)

respond-Advances :
    (is_alpha : ℕ → Bool) (s : Store) (a : Action) (t : Store)
    → respond is_alpha s a ≡ ok t
    → IsSound s
    → Advances s t
unfolding respond
respond-Advances f s (on_item c) t h i = serve-Advances f s c t h i
respond-Advances f s (on_run user k) t h i =
    let (a, e) = store_of-ok (sync_run_open_items s user k) h in
    let (run, same) = sync_run_open_items-ok s user k (a, t) e in
    subst (Advances s) (sym (ap (λ (o : SyncResult × Store). o.1) same))
      (sync-Advances s run (some user.id) i)
respond-Advances f s (on_proposal user kind k decision reason) t h i =
    let (a, e) = store_of-ok (decide s user kind k decision reason) h in
    decide-Advances s user kind k decision reason (a, t) e i

Extends-trans : (a b c : List AcceptedClaim) → Extends a b → Extends b c → Extends a c
Extends-trans a b c (xs, e) (ys, f) =
    (ys ++ xs, f ∙ (ap (λ l. ys ++ l) e ∙ sym (append_assoc ys xs a)))

-- From a sound store, any session of the endpoints that write, whatever is asked, by whomever and in
-- whatever order, and however many requests are refused, leads to a sound store: the history of
-- every open item is complete, ids to come are unused, and no transaction is claimed twice in a
-- namespace; and no claim is ever released.
pub respond_all-Advances :
    (is_alpha : ℕ → Bool) (s : Store) (session : List Action)
    → IsSound s
    → Advances s (respond_all is_alpha s session)
unfolding respond_all
respond_all-Advances f s [] i = (i, ([], refl))
respond_all-Advances f s (a ∷ rest) i =
    let t = or_rollback s (respond f s a) in
    let step = kept (respond f s a) refl in
    let (sound, more) = respond_all-Advances f t rest step.0 in
    (sound, Extends-trans s.claims t.claims (respond_all f t rest).claims step.1 more)
  where
    kept : (o : Outcome Store) → respond f s a ≡ o → Advances s (or_rollback s o)
    kept (ok t) e = respond-Advances f s a t e i
    kept (raised _) e = (i, ([], refl))
