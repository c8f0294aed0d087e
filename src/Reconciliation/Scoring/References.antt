-- ===== src/Reconciliation/Scoring/References.antt =====
-- Which references score (backend/app/services/reconciliation_scoring.py:
-- `calculate_reference_score`).
use treasury_os_app.Base.{
  ◌≡◌, refl, ◌↔◌, inl, inr, true, false, Option, List, [], ◌∷◌, any, map, In, here, there, arith,
  Bool-cases, sym, ap, ◌∙◌,
}
use treasury_os_app.Text.{Text, Unicode, strip, collapse, same_text, same_text_refl}
use treasury_os_app.Reconciliation.Scoring.{
  given, normalize_reference, some_pair, calculate_reference_score, reference_exact_points,
}

same_text-eq : (s t : Text) → same_text s t ≡ true → s ≡ t
same_text-eq [] [] h = refl
same_text-eq [] (d ∷ t) h = cc
same_text-eq (c ∷ s) [] h = cc
same_text-eq (c ∷ s) (d ∷ t) h = ground (arith, same_text-eq s t)

module _ (u : Unicode) where
  -- Some reference of each side, neither None nor empty, have the same normal form.
  abbrev pub SharesReference : List (Option Text) → List (Option Text) → Type 0
  SharesReference bs ls =
      (b : Text) × (l : Text) × In b (given bs)
      × In l (given ls)
      × (normalize_reference u b ≡ normalize_reference u l)

  any_same :
      (n : Text) (ls : List Text)
      → any (same_text n) (map (normalize_reference u) ls) ≡ true
      → (l : Text) × In l ls × (n ≡ normalize_reference u l)
  any_same n [] h = cc
  any_same n (l ∷ ls) h = elim (Bool-cases (same_text n (normalize_reference u l))) [
    | inl e ↦ (l, here refl, same_text-eq n (normalize_reference u l) e)
    | inr e ↦ let (l', m, q) = any_same n ls (rw e at h) in (l', there m, q)
  ]

  shares_of_pair :
      (bs ls : List Text)
      → some_pair same_text (map (normalize_reference u) bs) (map (normalize_reference u) ls) ≡ true
      → (b : Text) × (l : Text) × In b bs
        × In l ls
        × (normalize_reference u b ≡ normalize_reference u l)
  shares_of_pair [] ls h = cc
  shares_of_pair (b ∷ bs) ls h =
      elim (Bool-cases
        (any (same_text (normalize_reference u b)) (map (normalize_reference u) ls))) [
          | inl e ↦
              let (l, m, q) = any_same (normalize_reference u b) ls e in (b, l, here refl, m, q)
          | inr e ↦
              let (b', l, mb, ml, q) = shares_of_pair bs ls (rw e at h) in (b', l, there mb, ml, q)
        ]

  any_same_of :
      (n l : Text) (ls : List Text)
      → In l ls
      → n ≡ normalize_reference u l
      → any (same_text n) (map (normalize_reference u) ls) ≡ true
  any_same_of n l [] m q = elim m [ ]
  any_same_of n l (k ∷ ls) (here e) q =
      rw (q, e) (rw (same_text_refl (normalize_reference u k)) refl)
  any_same_of n l (k ∷ ls) (there m) q = ground (arith, any_same_of n l ls m q)

  pair_of_shares :
      (b l : Text) (bs ls : List Text)
      → In b bs
      → In l ls
      → normalize_reference u b ≡ normalize_reference u l
      → some_pair same_text (map (normalize_reference u) bs) (map (normalize_reference u) ls) ≡ true
  pair_of_shares b l [] ls mb ml q = elim mb [ ]
  pair_of_shares b l (k ∷ bs) ls (here e) ml q = ground (
    arith,
    any_same_of (normalize_reference u k) l ls ml (ap (normalize_reference u) (sym e) ∙ q),
  )
  pair_of_shares b l (k ∷ bs) ls (there m) ml q = ground (arith, pair_of_shares b l bs ls m ml q)

  -- The full points are given exactly when some given reference of the bank and some given
  -- reference of the ledger have the same normal form.
  pub calculate_reference_score-SharesReference :
      (bs ls : List (Option Text))
      → (calculate_reference_score u bs ls ≡ reference_exact_points) ↔ SharesReference bs ls
  unfolding calculate_reference_score
  calculate_reference_score-SharesReference bs ls = (
    λ h. shares_of_pair (given bs) (given ls) (ground arith),
    λ (b, l, mb, ml, q). ground (arith, pair_of_shares b l (given bs) (given ls) mb ml q),
  )

  -- Two references that are nothing but white space have the same normal form, so they score as an
  -- exact match, whatever the other references are.
  pub blank_references_score :
      (b l : Text) (bs ls : List (Option Text))
      → In b (given bs)
      → In l (given ls)
      → strip b ≡ []
      → strip l ≡ []
      → calculate_reference_score u bs ls ≡ reference_exact_points
  unfolding normalize_reference
  blank_references_score b l bs ls mb ml eb el =
      (calculate_reference_score-SharesReference bs ls).1
        (b, l, mb, ml, ap (λ t. u.to_upper (collapse false t)) (eb ∙ sym el))
