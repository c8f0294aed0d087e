-- ===== src/Reconciliation/Sync/History.antt =====
-- A synchronization keeps the history of the open items complete.
use treasury_os_app.Base.{
  ℕ, suc, ◌≤◌, ◌<◌, ◌≡◌, refl, sym, inl, inr, Option, none, List, [], ◌∷◌, ◌==◌, arith, Bool-cases,
  All, All-append, All-map_P,
}
use treasury_os_app.Reconciliation.Records.{OpenItem, ItemEvent, ReconciliationRun}
use treasury_os_app.Reconciliation.Store.{Store, evidence}
use treasury_os_app.Reconciliation.Derivation.{ItemSpec}
use treasury_os_app.Reconciliation.Exceptions.{derive_open_item_specs}
use treasury_os_app.Reconciliation.Workflow.Disposition.{IsConsistent}
use treasury_os_app.Reconciliation.WorkQueue.Log.{last_status, IsTracked, IsLogged}
use treasury_os_app.Reconciliation.Sync.{
  SyncResult, no_sync, has_source, new_item, created_event, insert_item, persist_spec,
  persist_specs, audit_sync, sync_open_items_for_run,
}

-- The counter of ids is ahead of every history row.
abbrev pub HasFreshIds : Store → Type 0
HasFreshIds s = All (λ (e : ItemEvent). e.open_item_id < s.next_id) s.events

pub last_status-fresh :
    (n k : ℕ) (events : List ItemEvent)
    → All (λ (e : ItemEvent). e.open_item_id < n) events
    → n ≤ k
    → last_status k events ≡ none
last_status-fresh n k [] h le = refl
last_status-fresh n k (e ∷ es) h le = ground (arith, last_status-fresh n k es h.1 le)

-- The history is complete, and fresh ids are fresh.
abbrev pub IsRecorded : Store → Type 0
IsRecorded s = IsLogged s × HasFreshIds s

module _ (run : ReconciliationRun) (actor : Option ℕ) where
  IsTracked-later :
      (n : ℕ) (events : List ItemEvent) (items : List OpenItem)
      → last_status n events ≡ none
      → All (IsTracked events) items
      → All (IsTracked (created_event run actor n ∷ events)) items
  unfolding created_event
  IsTracked-later n events [] f h = tt
  IsTracked-later n events (i ∷ is) f h =
      ((ground (arith, h.0.0), h.0.1), IsTracked-later n events is f h.1)

  insert_item-IsRecorded :
      (x : ItemSpec) (s : Store) → IsRecorded s → IsRecorded (insert_item run actor x s)
  unfolding insert_item IsConsistent
  insert_item-IsRecorded x s (l, f) =
      let fresh = last_status-fresh s.next_id s.next_id s.events f (omega arith) in
      (
        record {
          tracked =
              All-append (IsTracked (created_event run actor s.next_id ∷ s.events)) s.items
                (new_item run x s.next_id ∷ [])
                (IsTracked-later s.next_id s.events s.items fresh l.tracked)
                ((ground arith, ((refl, refl, refl), (refl, refl), (refl, refl))), tt);
          chained = (sym fresh, refl, l.chained);
        },
        (
          omega arith,
          All-map_P (λ (e : ItemEvent). e.open_item_id < s.next_id)
              (λ (e : ItemEvent). e.open_item_id < suc s.next_id) s.events (λ e h. omega (arith, h))
              f,
        ),
      )

  persist_specs-IsRecorded :
      (xs : List ItemSpec) (r : SyncResult) (s : Store)
      → IsRecorded s
      → IsRecorded (persist_specs run actor xs (r, s)).1
  unfolding persist_specs persist_spec
  persist_specs-IsRecorded [] r s h = h
  persist_specs-IsRecorded (x ∷ xs) r s h =
      elim (Bool-cases (has_source s.items run x.source_key)) [
        | inl old ↦ rw (old, persist_specs) (persist_specs-IsRecorded xs _ s h)
        | inr new ↦
            rw (new, persist_specs)
              (persist_specs-IsRecorded xs _ (insert_item run actor x s)
                (insert_item-IsRecorded x s h))
      ]

  audit_sync-IsRecorded :
      (acc : SyncResult × Store) → IsRecorded acc.1 → IsRecorded (audit_sync run actor acc).1
  unfolding audit_sync
  audit_sync-IsRecorded (r, s) h = elim (Bool-cases (r.created == 0)) [
    | inl nothing ↦ rw nothing h
    | inr something ↦ rw something (record { tracked = h.0.tracked; chained = h.0.chained }, h.1)
  ]

-- A synchronization keeps the history complete: every new item starts with one history row, which
-- opens it, no row of an older item is touched, and ids that the counter will give stay unused.
pub sync-IsRecorded :
    (s : Store) (run : ReconciliationRun) (actor : Option ℕ)
    → IsRecorded s
    → IsRecorded (sync_open_items_for_run s run actor).1
unfolding sync_open_items_for_run
sync-IsRecorded s run actor h =
    let specs = derive_open_item_specs (evidence s) run in
    audit_sync-IsRecorded run actor (persist_specs run actor specs (no_sync, s))
      (persist_specs-IsRecorded run actor specs no_sync s h)
