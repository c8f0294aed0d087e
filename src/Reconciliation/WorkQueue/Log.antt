-- ===== src/Reconciliation/WorkQueue/Log.antt =====
-- The history of the open items is complete: it is a chain of allowed moves that ends in the status
-- of each item.
use treasury_os_app.Base.{
  ℕ, ◌≡◌, refl, ap, sym, ◌⊎◌, inl, inr, Bool, true, false, Option, none, some, List, [], ◌∷◌, ◌==◌,
  if◌then◌else◌, All, ok, arith, find-All, subst,
}
use treasury_os_app.Auth.{User}
use treasury_os_app.Reconciliation.Records.{OpenItemStatus, open_status, OpenItem, ItemEvent}
use treasury_os_app.Reconciliation.Store.{Store, set_item}
use treasury_os_app.Reconciliation.Workflow.{allowed, Recorded, Request}
use treasury_os_app.Reconciliation.Workflow.Disposition.{IsConsistent, perform-IsConsistent}
use treasury_os_app.Reconciliation.Workflow.History.{Describes, perform-Describes}
use treasury_os_app.Reconciliation.Workflow.Rules.{Moved, target, perform-Moved}
use treasury_os_app.Reconciliation.WorkQueue.{required, commit, serve}
use treasury_os_app.Reconciliation.WorkQueue.Access.{serve-ok, authorized_item-ok}

-- The status after the newest row of an item.
abbrev pub last_status : ℕ → List ItemEvent → Option OpenItemStatus
last_status k [] = none
last_status k (e ∷ es) = if e.open_item_id == k then e.to_status else last_status k es

-- An item begins open; a later row leaves the status or moves it along the table.
abbrev pub IsLegal : Option OpenItemStatus → Option OpenItemStatus → Type 0
IsLegal none after = after ≡ some open_status
IsLegal (some a) after =
    (after ≡ some a) ⊎ ((b : OpenItemStatus) × (after ≡ some b) × (allowed a b ≡ true))

abbrev pub IsChained : List ItemEvent → Type 0
IsChained [] = Unit
IsChained (e ∷ es) =
    (e.from_status ≡ last_status e.open_item_id es)
    × IsLegal e.from_status e.to_status
    × IsChained es

-- Each item is consistent and has the status of its newest history row.
abbrev pub IsTracked : List ItemEvent → OpenItem → Type 0
IsTracked events i = (last_status i.id events ≡ some i.status) × IsConsistent i

pub record IsLogged (s : Store) : Type 0 where
  pub tracked : All (IsTracked s.events) s.items
  pub chained : IsChained s.events

-- one row of the table, by whether it is the changed one
IsTracked-after :
    (i : OpenItem) (r : Recorded) (actor : ℕ) (events : List ItemEvent) (j : OpenItem) (b : Bool)
    → Describes i actor r
    → IsConsistent r.item
    → IsTracked events j
    → (j.id == r.item.id) ≡ b
    → IsTracked (r.event ∷ events) (if b then r.item else j)
IsTracked-after i r actor events j true d c h e = (ground arith, c)
IsTracked-after i r actor events j false d c h e = (ground arith, h.1)

set_item-IsTracked :
    (i : OpenItem) (r : Recorded) (actor : ℕ) (events : List ItemEvent) (items : List OpenItem)
    → Describes i actor r
    → IsConsistent r.item
    → All (IsTracked events) items
    → All (IsTracked (r.event ∷ events)) (set_item r.item items)
set_item-IsTracked i r actor events [] d c h = tt
set_item-IsTracked i r actor events (j ∷ js) d c h = (
  IsTracked-after i r actor events j (j.id == r.item.id) d c h.0 refl,
  set_item-IsTracked i r actor events js d c h.1,
)

event-IsLegal :
    (i : OpenItem) (to : Option OpenItemStatus) (r : Recorded) (actor : ℕ)
    → Describes i actor r
    → Moved to i r.item
    → IsLegal r.event.from_status r.event.to_status
event-IsLegal i none r actor d m = rw (d.1, d.2) (inl (ap some m))
event-IsLegal i (some b) r actor d m = rw (d.1, d.2) (inr (b, ap some m.0, m.1))

commit-IsLogged :
    (s : Store) (i : OpenItem) (q : Request) (r : Recorded) (actor : ℕ)
    → IsLogged s
    → last_status i.id s.events ≡ some i.status
    → Describes i actor r
    → Moved (target q) i r.item
    → IsConsistent r.item
    → IsLogged (commit s r)
unfolding commit
commit-IsLogged s i q r actor h t d m c = record {
  tracked = set_item-IsTracked i r actor s.events s.items d c h.tracked;
  chained = (ground arith, event-IsLegal i (target q) r actor d m, h.chained);
}

-- A call that succeeds keeps the history complete: every item has the status of its newest history
-- row and agrees with its fields of settlement, and the rows of each item form a chain of moves
-- that the table of transitions allows.
pub serve-IsLogged :
    (is_alpha : ℕ → Bool) (s : Store) (now : ℕ) (user : User) (k : ℕ) (q : Request) (t : Store)
    → serve is_alpha s now user k q ≡ ok t
    → IsLogged s
    → IsLogged t
serve-IsLogged f s now user k q t h l =
    let (i, r, found, _, done, e) = serve-ok f s now user k q t h in
    let (row, _, _) = authorized_item-ok s user k (required q) i found in
    let known = find-All (IsTracked s.events) (λ (j : OpenItem). j.id == k) s.items l.tracked row in
    subst IsLogged (sym e) (
      commit-IsLogged s i q r user.id l known.0 (perform-Describes f i now user.id q r done)
        (perform-Moved f i now user.id q r done).0
        (perform-IsConsistent f i now user.id q r done known.1))
