-- ===== src/Reconciliation/Sync/Coverage.antt =====
-- What the items of a run cover after a synchronization, and that a second one finds nothing new.
use treasury_os_app.Base.{
  ℕ, suc, ◌+◌, ◌≡◌, refl, ap, ◌∙◌, ◌⊎◌, inl, inr, true, ◌&&◌, Option, some, List, [], ◌∷◌, ◌==◌,
  same_key, arith, Bool-cases, any, any-append, All, In, ==_refl, length,
}
use treasury_os_app.Reconciliation.Records.{BankTransaction, OpenItem, SourceKey, ReconciliationRun}
use treasury_os_app.Reconciliation.Store.{Store, evidence}
use treasury_os_app.Reconciliation.Derivation.{ItemSpec, same_source, scope_of}
use treasury_os_app.Reconciliation.MatchingRun.{scope_transactions}
use treasury_os_app.Reconciliation.Exceptions.{derive_open_item_specs}
use treasury_os_app.Reconciliation.Exceptions.Keys.{on_spec, same_source_refl, same_source-parts}
use treasury_os_app.Reconciliation.Exceptions.BankSide.{IsCovered, bank_key, derive-bank_accounted}
use treasury_os_app.Reconciliation.Sync.{
  SyncResult, no_sync, has_source, new_item, persist_spec, persist_specs, audit_sync,
  sync_open_items_for_run,
}

-- Every specification of the list has an item of the run.
abbrev pub Covers : List OpenItem → ReconciliationRun → List ItemSpec → Type 0
Covers items run = All (λ x. has_source items run x.source_key ≡ true)

-- the result when every specification has its item
abbrev pub all_existing : ℕ → SyncResult
all_existing n = record { created = 0; existing = n; by_category = [] }

module _ (run : ReconciliationRun) (actor : Option ℕ) where
  persist_spec-keeps :
      (k : SourceKey) (x : ItemSpec) (r : SyncResult) (s : Store)
      → has_source s.items run k ≡ true
      → has_source (persist_spec run actor x (r, s)).1.items run k ≡ true
  unfolding persist_spec
  persist_spec-keeps k x r s h = elim (Bool-cases (has_source s.items run x.source_key)) [
    | inl old ↦ rw old h
    | inr new ↦ rw new (
        ground (
          arith,
          any-append (λ (i : OpenItem). i.run_id == run.id && same_source i.source_key k) s.items
              (new_item run x s.next_id ∷ []),
        ))
  ]

  persist_spec-covers :
      (x : ItemSpec) (r : SyncResult) (s : Store)
      → has_source (persist_spec run actor x (r, s)).1.items run x.source_key ≡ true
  unfolding persist_spec
  persist_spec-covers x r s = elim (Bool-cases (has_source s.items run x.source_key)) [
    | inl old ↦ rw old old
    | inr new ↦ rw new (
        ground (
          arith,
          any-append (λ (i : OpenItem). i.run_id == run.id && same_source i.source_key x.source_key)
              s.items (new_item run x s.next_id ∷ []),
          same_source_refl x.source_key,
          ==_refl run.id,
        ))
  ]

  persist_spec-evidence :
      (x : ItemSpec) (r : SyncResult) (s : Store)
      → evidence (persist_spec run actor x (r, s)).1 ≡ evidence s
  unfolding persist_spec
  persist_spec-evidence x r s = elim (Bool-cases (has_source s.items run x.source_key)) [
    | inl old ↦ rw old refl
    | inr new ↦ rw new refl
  ]

  persist_specs-keeps :
      (k : SourceKey) (xs : List ItemSpec) (acc : SyncResult × Store)
      → has_source acc.1.items run k ≡ true
      → has_source (persist_specs run actor xs acc).1.items run k ≡ true
  unfolding persist_specs
  persist_specs-keeps k [] acc h = h
  persist_specs-keeps k (x ∷ xs) (r, s) h =
      persist_specs-keeps k xs (persist_spec run actor x (r, s)) (persist_spec-keeps k x r s h)

  persist_specs-Covers :
      (xs : List ItemSpec) (acc : SyncResult × Store)
      → Covers (persist_specs run actor xs acc).1.items run xs
  unfolding persist_specs
  persist_specs-Covers [] acc = tt
  persist_specs-Covers (x ∷ xs) (r, s) =
      let acc = persist_spec run actor x (r, s) in
      (
        persist_specs-keeps x.source_key xs acc (persist_spec-covers x r s),
        persist_specs-Covers xs acc,
      )

  persist_specs-evidence :
      (xs : List ItemSpec) (acc : SyncResult × Store)
      → evidence (persist_specs run actor xs acc).1 ≡ evidence acc.1
  unfolding persist_specs
  persist_specs-evidence [] acc = refl
  persist_specs-evidence (x ∷ xs) (r, s) =
      persist_specs-evidence xs (persist_spec run actor x (r, s)) ∙ persist_spec-evidence x r s

  persist_specs-Covered :
      (xs : List ItemSpec) (r : SyncResult) (s : Store)
      → Covers s.items run xs
      → persist_specs run actor xs (r, s) ≡ (record r { existing = r.existing + length xs }, s)
  unfolding persist_specs persist_spec
  persist_specs-Covered [] r s h = ap (λ n. (record r { existing = n }, s)) (omega arith)
  persist_specs-Covered (x ∷ xs) r s h = rw h.0 (
      persist_specs-Covered xs (record r { existing = suc r.existing }) s h.1
      ∙ ap (λ n. (record r { existing = n }, s)) (omega arith))

  persist_specs-all_existing :
      (xs : List ItemSpec) (s : Store)
      → Covers s.items run xs
      → persist_specs run actor xs (no_sync, s) ≡ (all_existing (length xs), s)
  persist_specs-all_existing xs s h =
      persist_specs-Covered xs no_sync s h ∙ ap (λ n. (all_existing n, s)) (omega arith)

  audit_sync-items :
      (acc : SyncResult × Store)
      → ((audit_sync run actor acc).1.items ≡ acc.1.items)
        × (evidence (audit_sync run actor acc).1 ≡ evidence acc.1)
  unfolding audit_sync
  audit_sync-items (r, s) = elim (Bool-cases (r.created == 0)) [
    | inl nothing ↦ rw nothing (refl, refl)
    | inr something ↦ rw something (refl, refl)
  ]

-- A synchronization reads and leaves alone all that the derivation reads, and afterwards the run has
-- an item for every specification that it derives.
pub sync-Covers :
    (s : Store) (run : ReconciliationRun) (actor : Option ℕ)
    → let t = (sync_open_items_for_run s run actor).1 in
      (evidence t ≡ evidence s) × Covers t.items run (derive_open_item_specs (evidence t) run)
unfolding sync_open_items_for_run
sync-Covers s run actor =
    let specs = derive_open_item_specs (evidence s) run in
    let acc = persist_specs run actor specs (no_sync, s) in
    let (same_items, same_evidence) = audit_sync-items run actor acc in
    let kept = same_evidence ∙ persist_specs-evidence run actor specs (no_sync, s) in
    (kept, rw (kept, same_items) (persist_specs-Covers run actor specs (no_sync, s)))

-- Synchronization is idempotent: a second one, by whomever, finds an item for everything, creates
-- nothing, and leaves the store exactly as it is, with no history row and no audit row.
pub sync_again :
    (s : Store) (run : ReconciliationRun) (actor again : Option ℕ)
    → let t = (sync_open_items_for_run s run actor).1 in
      sync_open_items_for_run t run again
      ≡ (all_existing (length (derive_open_item_specs (evidence s) run)), t)
unfolding sync_open_items_for_run audit_sync
sync_again s run actor again =
    let t = (sync_open_items_for_run s run actor).1 in
    let (kept, covered) = sync-Covers s run actor in
    rw (persist_specs-all_existing run again (derive_open_item_specs (evidence t) run) t covered)
      (ap (λ e. (all_existing (length (derive_open_item_specs e run)), t)) kept)

item_of_source :
    (run : ReconciliationRun) (k : ℕ) (x : ItemSpec) (items : List OpenItem)
    → same_key x.source_key.bank_id (some k) ≡ true
    → has_source items run x.source_key ≡ true
    → any (λ (i : OpenItem). i.run_id == run.id && same_key i.source_key.bank_id (some k)) items
      ≡ true
item_of_source run k x [] h e = cc
item_of_source run k x (i ∷ is) h e = elim (Bool-cases (same_source i.source_key x.source_key)) [
  | inl same ↦
      ground (arith, same_source-parts i.source_key x.source_key same, item_of_source run k x is h)
  | inr other ↦ ground (arith, item_of_source run k x is h)
]

item_of_specs :
    (run : ReconciliationRun) (k : ℕ) (xs : List ItemSpec) (items : List OpenItem)
    → any (on_spec (bank_key k)) xs ≡ true
    → Covers items run xs
    → any (λ (i : OpenItem). i.run_id == run.id && same_key i.source_key.bank_id (some k)) items
      ≡ true
item_of_specs run k [] items h c = cc
item_of_specs run k (x ∷ xs) items h c =
    elim (Bool-cases (same_key x.source_key.bank_id (some k))) [
      | inl names ↦ item_of_source run k x items names c.0
      | inr other ↦ item_of_specs run k xs items (rw other at h) c.1
    ]

-- After a synchronization nothing of the bank side is hidden: every active bank row of the run's
-- entity, account and period is covered by a proposal, or the work queue has an item of the run that
-- names it.
pub sync-bank_accounted :
    (s : Store) (run : ReconciliationRun) (actor : Option ℕ) (b : BankTransaction)
    → In b (scope_transactions (scope_of run) s.banks)
    → IsCovered (evidence s) run b
      ⊎ (any
            (λ (i : OpenItem). i.run_id == run.id && same_key i.source_key.bank_id (some b.id))
            (sync_open_items_for_run s run actor).1.items
          ≡ true)
sync-bank_accounted s run actor b m =
    let (kept, covered) = sync-Covers s run actor in
    elim (derive-bank_accounted (evidence s) run b m) [
      | inl c ↦ inl c
      | inr e ↦ inr (
          item_of_specs run b.id (derive_open_item_specs (evidence s) run)
            (sync_open_items_for_run s run actor).1.items e (rw kept at covered))
    ]
