-- ===== src/Reconciliation/Engine/Suggestions.antt =====
-- When the engine calls a match unambiguous, and the order in which it ranks.
use treasury_os_app.Base.{
  ℕ, ◌≤◌, ◌<◌, ◌≡◌, ◌≢◌, inl, inr, true, false, Option, List, [], ◌∷◌, arith, Bool-cases, All,
  collect, sort_by, insert_by, insert_by-All, filter, length, ltb, ◌==◌, holds, All-map_P,
}
use treasury_os_app.Text.{Unicode}
use treasury_os_app.Reconciliation.Records.{BankTransaction, ReconciliationConfiguration}
use treasury_os_app.Reconciliation.Store.{Store}
use treasury_os_app.Reconciliation.Scoring.{CandidateScore, auto_match_threshold}
use treasury_os_app.Reconciliation.Candidates.{generate_candidates}
use treasury_os_app.Reconciliation.Engine.{
  Scored, scored_one, ranks_before, rank, suggest_none, suggest_top, suggest, tied_with, tier_of,
  is_auto, bank_transaction_already_processed, run_matching_for_bank_transaction, amount_tolerance,
  date_tolerance, high_value_of,
}

abbrev pub AtMost : ℕ → Scored → Type 0
AtMost top x = x.0.total ≤ top

-- Each score is at least those behind it.
abbrev pub IsRanked : List Scored → Type 0
IsRanked [] = Unit
IsRanked (x ∷ xs) = All (AtMost x.0.total) xs × IsRanked xs

ranks_before-le : (x y : Scored) → ranks_before x y ≡ true → y.0.total ≤ x.0.total
ranks_before-le (s, t) (s', t') h = ground arith

not_before-le : (x y : Scored) → ranks_before x y ≡ false → x.0.total ≤ y.0.total
not_before-le (s, t) (s', t') h = ground arith

insert_by-IsRanked :
    (x : Scored) (ys : List Scored) → IsRanked ys → IsRanked (insert_by ranks_before x ys)
insert_by-IsRanked x [] h = (tt, tt)
insert_by-IsRanked x (y ∷ ys) h = elim (Bool-cases (ranks_before x y)) [
  | inl first ↦ rw first (
    (
      ranks_before-le x y first,
      All-map_P (AtMost y.0.total) (AtMost x.0.total) ys
          (λ z le. omega (arith, ranks_before-le x y first)) h.0,
    ),
    h,
  )
  | inr later ↦ rw later (
    insert_by-All (AtMost y.0.total) ranks_before x ys (not_before-le x y later) h.0,
    insert_by-IsRanked x ys h.1,
  )
]

sort_by-IsRanked : (xs : List Scored) → IsRanked (sort_by ranks_before xs)
sort_by-IsRanked [] = tt
sort_by-IsRanked (x ∷ xs) = insert_by-IsRanked x (sort_by ranks_before xs) (sort_by-IsRanked xs)

abbrev pub Below : ℕ → Scored → Type 0
Below top x = x.0.total < top

Below-top :
    (top : ℕ) (xs : List Scored)
    → All (AtMost top) xs
    → length (filter (tied_with top) xs) ≡ 0
    → All (Below top) xs
Below-top top [] h e = tt
Below-top top (x ∷ xs) h e = elim (Bool-cases (x.0.total == top)) [
  | inl tie ↦ absurd (ground arith)
  | inr less ↦ (ground arith, Below-top top xs h.1 (ground arith))
]

-- What an unambiguous match means: the ranking has a strictly best candidate, which reaches the
-- auto-match threshold and, above the high-value threshold, has a reference.
abbrev pub IsClear : Option ℕ → BankTransaction → List Scored → Type 0
IsClear high b [] = ⊥
IsClear high b (x ∷ rest) =
    All (Below x.0.total) rest
    × (auto_match_threshold ≤ x.0.total)
    × (holds (λ threshold. ltb threshold b.amount) high ≡ true → x.0.reference_points ≢ 0)

tier_of-auto :
    (high : Option ℕ) (b : BankTransaction) (score : CandidateScore)
    → is_auto (tier_of high b score) ≡ 1
    → (auto_match_threshold ≤ score.total)
      × (holds (λ threshold. ltb threshold b.amount) high ≡ true → score.reference_points ≢ 0)
unfolding tier_of
tier_of-auto high b score h = ground arith

suggest_none-matched :
    (run_id : ℕ) (b : BankTransaction) (n : ℕ) (s : Store)
    → (suggest_none run_id b n s).0.matched_count ≡ 0
unfolding suggest_none
suggest_none-matched run_id b n s = ground arith

suggest_top-matched :
    (run_id : ℕ) (b : BankTransaction) (high : Option ℕ) (n : ℕ) (x : Scored) (s : Store)
    → (suggest_top run_id b high n x s).0.matched_count ≡ 1
    → is_auto (tier_of high b x.0) ≡ 1
unfolding suggest_top
suggest_top-matched run_id b high n (score, t) s h = ground arith

suggest-IsClear :
    (run_id : ℕ) (b : BankTransaction) (high : Option ℕ) (n : ℕ) (xs : List Scored) (s : Store)
    → IsRanked xs
    → (suggest run_id b high n xs s).0.matched_count ≡ 1
    → IsClear high b xs
unfolding suggest
suggest-IsClear run_id b high n [] s r h =
    absurd (omega (arith, h, suggest_none-matched run_id b n s))
suggest-IsClear run_id b high n ((score, t) ∷ rest) s r h =
    elim (Bool-cases (ltb 1 (length (filter (tied_with score.total) ((score, t) ∷ rest))))) [
      | inl several ↦ absurd (ground arith)
      | inr single ↦
          let auto = suggest_top-matched run_id b high n (score, t) s (rw single at h) in
          (
            Below-top score.total rest r.0 (ground arith),
            (tier_of-auto high b score auto).0,
            (tier_of-auto high b score auto).1,
          )
    ]

-- A bank transaction counts as matched only if it had no suggestion of this run yet and, of the
-- candidates that reach the review threshold, one scores strictly more than every other, reaches the
-- auto-match threshold of 70 and, where the amount is above the configuration's high value, has
-- reference points.
pub matched-IsClear :
    (u : Unicode) (s : Store) (run_id : ℕ) (b : BankTransaction)
    (c : Option ReconciliationConfiguration) (claimed : List ℕ)
    → (run_matching_for_bank_transaction u s run_id b c claimed).0.matched_count ≡ 1
    → (bank_transaction_already_processed s run_id b.id ≡ false)
      × IsClear
          (high_value_of c)
          b
          (rank u b (generate_candidates s b (date_tolerance c) (amount_tolerance c) claimed))
unfolding run_matching_for_bank_transaction rank
matched-IsClear u s run_id b c claimed h =
    let rows = generate_candidates s b (date_tolerance c) (amount_tolerance c) claimed in
    elim (Bool-cases (bank_transaction_already_processed s run_id b.id)) [
      | inl done ↦ absurd (ground arith)
      | inr fresh ↦ (
        fresh,
        suggest-IsClear run_id b (high_value_of c) (length rows) (rank u b rows) s
            (sort_by-IsRanked (collect (scored_one u b) rows)) (rw fresh at h),
      )
    ]

-- A second pass over a bank transaction that has a suggestion of the run does nothing at all.
pub run_matching_again :
    (u : Unicode) (s : Store) (run_id : ℕ) (b : BankTransaction)
    (c : Option ReconciliationConfiguration) (claimed : List ℕ)
    → bank_transaction_already_processed s run_id b.id ≡ true
    → (run_matching_for_bank_transaction u s run_id b c claimed).1 ≡ s
unfolding run_matching_for_bank_transaction
run_matching_again u s run_id b c claimed h = rw h
