-- ===== src/Reconciliation/Exceptions/Unmatched.antt =====
-- What it means for a ledger row of a run to be unmatched, in terms of the rows of the tables
-- (backend/app/services/reconciliation_open_item_service.py: the query for ledger rows).
use treasury_os_app.Base.{
  ℕ, ◌≤◌, ◌≡◌, ◌↔◌, ◌⊎◌, inl, inr, refl, Bool, true, false, ◌&&◌, some, ◌==◌, same_key, arith, any,
  any-In, In-any, In,
}
use treasury_os_app.Reconciliation.Records.{
  LedgerTransaction, ReconciliationRun, MatchGroup, MatchGroupMember, MatchGroupStatus,
  MatchSuggestion, MatchSuggestionStatus, TransactionStatus,
}
use treasury_os_app.Reconciliation.Store.{Evidence}
use treasury_os_app.Reconciliation.Candidates.{is_live}
use treasury_os_app.Reconciliation.Derivation.{is_live_group, is_ambiguous, ledger_in_group}
use treasury_os_app.Reconciliation.Exceptions.{is_unmatched_ledger}

-- A pending or accepted suggestion, of any run, names the ledger row.
abbrev pub IsSuggested : Evidence → ℕ → Type 0
IsSuggested s k =
    (g : MatchSuggestion) × In g s.suggestions
    × (g.treasury_id ≡ some k)
    × ((g.status ≡ MatchSuggestionStatus.pending) ⊎ (g.status ≡ MatchSuggestionStatus.accepted))

-- A group of the kind has a member that names the ledger row.
abbrev pub IsGrouped : Evidence → (MatchGroup → Type 0) → ℕ → Type 0
IsGrouped s P k =
    (g : MatchGroup) × (m : MatchGroupMember) × In g s.groups
    × P g
    × In m s.members
    × (m.match_group_id ≡ g.id)
    × (m.treasury_id ≡ some k)

abbrev pub IsLiveGroup : MatchGroup → Type 0
IsLiveGroup g = (g.status ≡ MatchGroupStatus.pending) ⊎ (g.status ≡ MatchGroupStatus.accepted)

abbrev pub IsAmbiguousOf : ReconciliationRun → MatchGroup → Type 0
IsAmbiguousOf run g = (g.run_id ≡ run.id) × (g.status ≡ MatchGroupStatus.ambiguous)

-- A posted ledger row of the run's entity, account and period that nothing live and no ambiguous
-- group of the run names.
abbrev pub IsUnmatched : Evidence → ReconciliationRun → LedgerTransaction → Type 0
IsUnmatched s run t =
    (t.legal_entity_id ≡ run.legal_entity_id)
    × (t.bank_account_id ≡ some run.bank_account_id)
    × (t.status ≡ TransactionStatus.posted)
    × (run.period_start ≤ t.event_date)
    × (t.event_date ≤ run.period_end)
    × ¬ IsSuggested s t.id
    × ¬ IsGrouped s IsLiveGroup t.id
    × ¬ IsGrouped s (IsAmbiguousOf run) t.id

IsSuggested-iff :
    (s : Evidence) (k : ℕ)
    → (any
          (λ (g : MatchSuggestion). same_key g.treasury_id (some k) && is_live g.status)
          s.suggestions
        ≡ true)
      ↔ IsSuggested s k
IsSuggested-iff s k = (
  λ h. let (g, m, e) = any-In _ s.suggestions h in (g, m, ground arith, ground arith),
  λ (g, m, e, live).
      In-any _ s.suggestions g m (elim live [ inl p ↦ ground arith | inr p ↦ ground arith ]),
)

IsGrouped-iff :
    (s : Evidence) (test : MatchGroup → Bool) (P : MatchGroup → Type 0) (k : ℕ)
    → ((g : MatchGroup) → (test g ≡ true) ↔ P g)
    → (ledger_in_group s test k ≡ true) ↔ IsGrouped s P k
IsGrouped-iff s test P k iff = (
  λ h.
      let (g, m, e) = any-In _ s.groups h in
      let p : test g ≡ true = ground arith in
      let inner : any
            (λ (m : MatchGroupMember). m.match_group_id == g.id && same_key m.treasury_id (some k))
            s.members
          ≡ true =
        ground arith in
      let (x, m', e') = any-In _ s.members inner in
      (g, x, m, (iff g).0 p, m', ground arith, ground arith),
  λ (g, x, m, p, m', own, named).
      let inner : any
            (λ (m : MatchGroupMember). m.match_group_id == g.id && same_key m.treasury_id (some k))
            s.members
          ≡ true =
        In-any _ s.members x m' (ground arith) in
      In-any _ s.groups g m (rw ((iff g).1 p) (rw inner refl)),
)

IsLiveGroup-iff : (g : MatchGroup) → (is_live_group g.status ≡ true) ↔ IsLiveGroup g
IsLiveGroup-iff g = ground arith

IsAmbiguousOf-iff :
    (run : ReconciliationRun) (g : MatchGroup)
    → ((g.run_id == run.id && is_ambiguous g.status) ≡ true) ↔ IsAmbiguousOf run g
IsAmbiguousOf-iff run g = ground arith

-- A test that reads as a statement fails exactly when the statement does.
negated : (b : Bool) (P : Type 0) → (b ≡ true) ↔ P → (b ≡ false) ↔ ¬ P
negated true P iff = (λ h. absurd (ground arith), λ never. absurd (never (iff.0 refl)))
negated false P iff = (λ h p. absurd (let e = iff.1 p in ground arith), λ never. refl)

pub is_unmatched_ledger-IsUnmatched :
    (s : Evidence) (run : ReconciliationRun) (t : LedgerTransaction)
    → (is_unmatched_ledger s run t ≡ true) ↔ IsUnmatched s run t
unfolding is_unmatched_ledger
is_unmatched_ledger-IsUnmatched s run t =
    let suggested = negated _ (IsSuggested s t.id) (IsSuggested-iff s t.id) in
    let live = negated _ (IsGrouped s IsLiveGroup t.id) (
      IsGrouped-iff s (λ (g : MatchGroup). is_live_group g.status) IsLiveGroup t.id
        IsLiveGroup-iff) in
    let ambiguous = negated _ (IsGrouped s (IsAmbiguousOf run) t.id) (
      IsGrouped-iff s (λ (g : MatchGroup). g.run_id == run.id && is_ambiguous g.status)
        (IsAmbiguousOf run) t.id (IsAmbiguousOf-iff run)) in
    (
      λ h. (
        ground arith,
        ground arith,
        ground arith,
        ground arith,
        ground arith,
        suggested.0 (ground arith),
        live.0 (ground arith),
        ambiguous.0 (ground arith),
      ),
      λ (entity, account, posted, from, to, free, free', free'').
          let a = suggested.1 free in
          let b = live.1 free' in let c = ambiguous.1 free'' in ground arith,
    )
