-- ===== src/Reconciliation/Sync/Frame.antt =====
-- The tables that a synchronization writes.
use treasury_os_app.Base.{ℕ, ◌≡◌, refl, ap, ◌∙◌, inl, inr, Option, List, [], ◌∷◌, ◌==◌, Bool-cases}
use treasury_os_app.Reconciliation.Records.{ReconciliationRun}
use treasury_os_app.Reconciliation.Store.{Store, evidence}
use treasury_os_app.Reconciliation.Derivation.{ItemSpec}
use treasury_os_app.Reconciliation.Exceptions.{derive_open_item_specs}
use treasury_os_app.Reconciliation.Sync.{
  SyncResult, no_sync, has_source, persist_spec, persist_specs, audit_sync, sync_open_items_for_run,
}

-- The first store with the items, the logs and the counter of the second.
abbrev pub with_items : Store → Store → Store
with_items s t = record s {
  items = t.items;
  events = t.events;
  audits = t.audits;
  next_id = t.next_id;
}

module _ (run : ReconciliationRun) (actor : Option ℕ) where
  persist_spec-frame :
      (x : ItemSpec) (r : SyncResult) (s : Store)
      → (persist_spec run actor x (r, s)).1 ≡ with_items s (persist_spec run actor x (r, s)).1
  unfolding persist_spec
  persist_spec-frame x r s = elim (Bool-cases (has_source s.items run x.source_key)) [
    | inl old ↦ rw old refl
    | inr new ↦ rw new refl
  ]

  persist_specs-frame :
      (xs : List ItemSpec) (r : SyncResult) (s : Store)
      → (persist_specs run actor xs (r, s)).1 ≡ with_items s (persist_specs run actor xs (r, s)).1
  unfolding persist_specs
  persist_specs-frame [] r s = refl
  persist_specs-frame (x ∷ xs) r s =
      let (r', s') = persist_spec run actor x (r, s) in
      persist_specs-frame xs r' s'
      ∙ ap (λ u. with_items u (persist_specs run actor xs (r', s')).1) (persist_spec-frame x r s)

  audit_sync-frame :
      (acc : SyncResult × Store)
      → (audit_sync run actor acc).1 ≡ with_items acc.1 (audit_sync run actor acc).1
  unfolding audit_sync
  audit_sync-frame (r, s) = elim (Bool-cases (r.created == 0)) [
    | inl nothing ↦ rw nothing refl
    | inr something ↦ rw something refl
  ]

-- A synchronization writes the items, the two logs and the counter, and no other table.
pub sync-frame :
    (s : Store) (run : ReconciliationRun) (actor : Option ℕ)
    → (sync_open_items_for_run s run actor).1 ≡ with_items s (sync_open_items_for_run s run actor).1
unfolding sync_open_items_for_run
sync-frame s run actor =
    let acc = persist_specs run actor (derive_open_item_specs (evidence s) run) (no_sync, s) in
    audit_sync-frame run actor acc
    ∙ ap (λ u. with_items u (audit_sync run actor acc).1)
        (persist_specs-frame run actor (derive_open_item_specs (evidence s) run) no_sync s)
