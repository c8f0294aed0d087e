-- ===== src/Reconciliation/Decision/Reload.antt =====
-- A proposal whose status was set is found again, with its run, and so is a decision that was added.
use treasury_os_app.Base.{
  ℕ, ◌≡◌, refl, sym, ap, inl, inr, subst, Bool, true, Option, none, some, List, [], ◌∷◌, ◌++◌, ◌==◌,
  find, arith, Bool-cases, ==_refl, find-passes,
}
use mathlib.Core.Option.{some-injective}
use treasury_os_app.Text.{Text}
use treasury_os_app.Reconciliation.Records.{
  MatchProposalKind, MatchDecisionType, MatchSuggestion, MatchGroup, MatchSuggestionStatus,
  MatchGroupStatus, ReconciliationRun, MatchDecision,
}
use treasury_os_app.Reconciliation.Store.{Store, get_suggestion, get_group}
use treasury_os_app.Reconciliation.Proposal.{
  Proposal, one_to_one, grouped, kind_of, id_of, run_of, load_proposal, some_suggestion, some_group,
}
use treasury_os_app.Reconciliation.DecisionRecord.{
  decides, decision_record, set_status, set_suggestion, set_group, suggestion_status, group_status,
}

get-set_suggestion :
    (k j : ℕ) (status : MatchSuggestionStatus) (gs : List MatchSuggestion) (g : MatchSuggestion)
    → get_suggestion k gs ≡ some g
    → g.id ≡ j
    → get_suggestion k (set_suggestion j status gs) ≡ some (record g { status = status })
get-set_suggestion k j status [] g h e = cc
get-set_suggestion k j status (x ∷ xs) g h e = elim (Bool-cases (x.id == k)) [
  | inl this ↦ ground (arith, some-injective x g (rw this at h))
  | inr other ↦ ground (
    arith,
    get-set_suggestion k j status xs g,
    find-passes (λ (y : MatchSuggestion). y.id == k) xs {a = g} (rw other at h),
  )
]

get-set_group :
    (k j : ℕ) (status : MatchGroupStatus) (gs : List MatchGroup) (g : MatchGroup)
    → get_group k gs ≡ some g
    → g.id ≡ j
    → get_group k (set_group j status gs) ≡ some (record g { status = status })
get-set_group k j status [] g h e = cc
get-set_group k j status (x ∷ xs) g h e = elim (Bool-cases (x.id == k)) [
  | inl this ↦ ground (arith, some-injective x g (rw this at h))
  | inr other ↦ ground (
    arith,
    get-set_group k j status xs g,
    find-passes (λ (y : MatchGroup). y.id == k) xs {a = g} (rw other at h),
  )
]

-- The proposal is still there under its id, with its run, after its status is set.
abbrev pub Reloads : Store → MatchProposalKind → ℕ → Proposal → Type 0
Reloads t kind k p =
    (p' : Proposal) × (load_proposal t kind k ≡ some p')
    × (id_of p' ≡ id_of p)
    × (run_of p' ≡ run_of p)

pub find-append :
    (p : MatchDecision → Bool) (ds : List MatchDecision) (d : MatchDecision)
    → find p ds ≡ none
    → p d ≡ true
    → find p (ds ++ d ∷ []) ≡ some d
find-append p [] d n h = rw h refl
find-append p (x ∷ xs) d n h = elim (Bool-cases (p x)) [
  | inl passes ↦ absurd (ground arith)
  | inr fails ↦ rw fails (find-append p xs d (rw fails at n) h)
]

pub load_proposal-ext :
    (s t : Store) (kind : MatchProposalKind) (k : ℕ)
    → t.suggestions ≡ s.suggestions
    → t.groups ≡ s.groups
    → load_proposal t kind k ≡ load_proposal s kind k
unfolding load_proposal
load_proposal-ext s t MatchProposalKind.suggestion k e f =
    ap (λ l. some_suggestion (get_suggestion k l)) e
load_proposal-ext s t MatchProposalKind.group k e f = ap (λ l. some_group (get_group k l)) f

one_to_one-Reloads :
    (s : Store) (k : ℕ) (decision : MatchDecisionType) (o : Option MatchSuggestion) (p : Proposal)
    → get_suggestion k s.suggestions ≡ o
    → some_suggestion o ≡ some p
    → Reloads (set_status p decision s) MatchProposalKind.suggestion k p
      × (kind_of p ≡ MatchProposalKind.suggestion)
unfolding load_proposal set_status
one_to_one-Reloads s k decision none p e h = cc
one_to_one-Reloads s k decision (some g) p e h =
    subst
      (λ p.
        Reloads (set_status p decision s) MatchProposalKind.suggestion k p
        × (kind_of p ≡ MatchProposalKind.suggestion))
      (some-injective (one_to_one g) p h)
      (
        (
          one_to_one (record g { status = suggestion_status decision }),
          ap some_suggestion
              (get-set_suggestion k g.id (suggestion_status decision) s.suggestions g e refl),
          refl,
          refl,
        ),
        refl,
      )

grouped-Reloads :
    (s : Store) (k : ℕ) (decision : MatchDecisionType) (o : Option MatchGroup) (p : Proposal)
    → get_group k s.groups ≡ o
    → some_group o ≡ some p
    → Reloads (set_status p decision s) MatchProposalKind.group k p
      × (kind_of p ≡ MatchProposalKind.group)
unfolding load_proposal set_status
grouped-Reloads s k decision none p e h = cc
grouped-Reloads s k decision (some g) p e h =
    subst
      (λ p.
        Reloads (set_status p decision s) MatchProposalKind.group k p
        × (kind_of p ≡ MatchProposalKind.group))
      (some-injective (grouped g) p h)
      (
        (
          grouped (record g { status = group_status decision }),
          ap some_group (get-set_group k g.id (group_status decision) s.groups g e refl),
          refl,
          refl,
        ),
        refl,
      )

pub set_status-Reloads :
    (s : Store) (kind : MatchProposalKind) (k : ℕ) (decision : MatchDecisionType) (p : Proposal)
    → load_proposal s kind k ≡ some p
    → Reloads (set_status p decision s) kind k p × (kind_of p ≡ kind)
unfolding load_proposal
set_status-Reloads s MatchProposalKind.suggestion k decision p h =
    one_to_one-Reloads s k decision (get_suggestion k s.suggestions) p refl h
set_status-Reloads s MatchProposalKind.group k decision p h =
    grouped-Reloads s k decision (get_group k s.groups) p refl h

pub set_status-runs :
    (p : Proposal) (decision : MatchDecisionType) (s : Store)
    → (set_status p decision s).runs ≡ s.runs
unfolding set_status
set_status-runs (one_to_one g) decision s = refl
set_status-runs (grouped g) decision s = refl

pub decides-record :
    (kind : MatchProposalKind) (run : ReconciliationRun) (p : Proposal)
    (decision : MatchDecisionType) (text : Text) (actor id : ℕ)
    → kind_of p ≡ kind
    → decides kind (id_of p) (decision_record run p decision text actor id) ≡ true
unfolding decision_record
decides-record kind run (one_to_one g) decision text actor id e = rw (sym e) (==_refl g.id)
decides-record kind run (grouped g) decision text actor id e = rw (sym e) (==_refl g.id)
