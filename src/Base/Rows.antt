-- ===== src/Base/Rows.antt =====
-- A table as a list of rows with a numeric key: a row is looked up and written back by its key, and
-- a new row goes to the end.
use Prim.Native.Nat.{ℕ, suc}
use mathlib.Core.Path.{◌≡◌, refl, sym, ap, ◌∙◌}
use mathlib.Core.Logic.{◌⊎◌, inl, inr}
use mathlib.Core.Bool.{Bool, false}
use mathlib.Core.Option.{Option, none, some, some-injective}
use mathlib.Core.List.{List, [], ◌∷◌, ◌++◌}
use native.Mathlib.Omega.{arith}
use treasury_os_app.Base.Tests.{if◌then◌else◌, ◌==◌, ==_iff, Bool-cases}
use treasury_os_app.Base.Lists.{All, find, find-passes, filter, length}
use treasury_os_app.Base.Int.{ℤ, pos, ◌+ℤ◌, sum_ℤ, int_laws}

module _ {ℓ} {A : Type ℓ} where
  -- the row with the key
  abbrev pub get_row : (A → ℕ) → ℕ → List A → Option A
  get_row key k xs = find (λ x. key x == k) xs

  -- The row with the key of the new one gives place to it.
  abbrev pub put_row : (A → ℕ) → A → List A → List A
  put_row key y [] = []
  put_row key y (x ∷ xs) =
      let rest = put_row key y xs in if key x == key y then y ∷ xs else x ∷ rest

  pub put_row-All {κ} :
      (P : A → Type κ) (key : A → ℕ) (y : A) (xs : List A)
      → P y
      → All P xs
      → All P (put_row key y xs)
  put_row-All P key y [] p h = tt
  put_row-All P key y (x ∷ xs) p h = elim (Bool-cases (key x == key y)) [
    | inl e ↦ rw e (p, h.1)
    | inr e ↦ rw e (h.0, put_row-All P key y xs p h.1)
  ]

  -- A row that is written is found; the others are as before.
  pub get_row-put_row_same :
      (key : A → ℕ) (y : A) (xs : List A) {x : A}
      → get_row key (key y) xs ≡ some x
      → get_row key (key y) (put_row key y xs) ≡ some y
  get_row-put_row_same key y [] {x} h = ground arith
  get_row-put_row_same key y (x' ∷ xs) {x} h = ground (arith, get_row-put_row_same key y xs {x = x})

  pub get_row-put_row_other :
      (key : A → ℕ) (y : A) (xs : List A) (k : ℕ)
      → (key y == k) ≡ false
      → get_row key k (put_row key y xs) ≡ get_row key k xs
  get_row-put_row_other key y [] k h = refl
  get_row-put_row_other key y (x ∷ xs) k h = ground (arith, get_row-put_row_other key y xs k)

  -- What a look-up finds after the row at a key is written.
  pub get_row-put_row :
      (key : A → ℕ) (x y : A) (xs : List A) (k j : ℕ) {z : A}
      → get_row key k xs ≡ some x
      → key y ≡ key x
      → get_row key j (put_row key y xs) ≡ some z
      → ((k ≡ j) × (z ≡ y)) ⊎ (((k == j) ≡ false) × (get_row key j xs ≡ some z))
  get_row-put_row key x y xs k j {z} h e g = elim (Bool-cases (k == j)) [
    | inl same ↦
        let at_j : j ≡ key y = sym ((==_iff k j).0 same) ∙ at_k in
        inl ((==_iff k j).0 same, some-injective z y (sym g ∙ rw at_j (written)))
    | inr other ↦ inr (other, sym (get_row-put_row_other key y xs j (rw (← at_k) other)) ∙ g)
  ]
    where
      at_k : k ≡ key y
      at_k = sym (e ∙ (==_iff (key x) k).0 (find-passes (λ x. key x == k) xs {a = x} h))

      written : get_row key (key y) (put_row key y xs) ≡ some y
      written = get_row-put_row_same key y xs {x = x} (rw (← at_k) h)

  pub get_row-key :
      (key : A → ℕ) (k : ℕ) (xs : List A) {x : A} → get_row key k xs ≡ some x → key x ≡ k
  get_row-key key k xs {x} h = (==_iff (key x) k).0 (find-passes (λ x. key x == k) xs {a = x} h)

  -- A sum changes by what the row changes.
  pub sum_ℤ-put_row :
      (f : A → ℤ) (key : A → ℕ) (y : A) (xs : List A) {x : A}
      → get_row key (key y) xs ≡ some x
      → sum_ℤ f (put_row key y xs) +ℤ f x ≡ sum_ℤ f xs +ℤ f y
  sum_ℤ-put_row f key y [] {x} h = cc
  sum_ℤ-put_row f key y (x' ∷ xs) {x} h = elim (Bool-cases (key x' == key y)) [
    | inl e ↦ rw e (rw (some-injective x' x (rw e at h)) (grind int_laws))
    | inr e ↦ rw e (grind (int_laws, sum_ℤ-put_row f key y xs {x = x} (rw e at h)))
  ]

  pub sum_ℤ-append_one :
      (f : A → ℤ) (xs : List A) (y : A) → sum_ℤ f (xs ++ y ∷ []) ≡ sum_ℤ f xs +ℤ f y
  sum_ℤ-append_one f [] y = grind int_laws
  sum_ℤ-append_one f (x ∷ xs) y = grind (int_laws, sum_ℤ-append_one f xs y)

  pub get_row-append_one :
      (key : A → ℕ) (xs : List A) (y : A) (k : ℕ) {z : A}
      → get_row key k (xs ++ y ∷ []) ≡ some z
      → (get_row key k xs ≡ some z) ⊎ ((get_row key k xs ≡ none) × (key y ≡ k) × (z ≡ y))
  get_row-append_one key [] y k {z} h = ground (arith, some-injective y z)
  get_row-append_one key (x ∷ xs) y k {z} h = ground (arith, get_row-append_one key xs y k {z = z})

  pub sum_ℤ-zero : (f : A → ℤ) (xs : List A) → All (λ x. f x ≡ pos 0) xs → sum_ℤ f xs ≡ pos 0
  sum_ℤ-zero f [] h = refl
  sum_ℤ-zero f (x ∷ xs) h = grind (int_laws, h, sum_ℤ-zero f xs h.1)

  pub sum_ℤ-write :
      (f : A → ℤ) (key : A → ℕ) (x y : A) (xs : List A) (k : ℕ)
      → get_row key k xs ≡ some x
      → key y ≡ key x
      → sum_ℤ f (put_row key y xs) +ℤ f x ≡ sum_ℤ f xs +ℤ f y
  sum_ℤ-write f key x y xs k h e =
      sum_ℤ-put_row f key y xs {x = x} (rw e (rw (get_row-key key k xs {x = x} h) h))

  -- A test that the change of a row does not concern counts the same rows.
  length-filter-put_row :
      (p : A → Bool) (key : A → ℕ) (y : A) (xs : List A) {x : A}
      → get_row key (key y) xs ≡ some x
      → p y ≡ p x
      → length (filter p (put_row key y xs)) ≡ length (filter p xs)
  length-filter-put_row p key y [] {x} h same = cc
  length-filter-put_row p key y (x' ∷ xs) {x} h same = elim (Bool-cases (key x' == key y)) [
    | inl e ↦ rw e (rw (same ∙ ap p (sym (some-injective x' x (rw e at h)))) (ground arith))
    | inr e ↦ rw e (elim (Bool-cases (p x')) [
      | inl in_it ↦ rw in_it (ap suc (length-filter-put_row p key y xs {x = x} (rw e at h) same))
      | inr out ↦ rw out (length-filter-put_row p key y xs {x = x} (rw e at h) same)
    ])
  ]

  pub length-filter-write :
      (p : A → Bool) (key : A → ℕ) (x y : A) (xs : List A) (k : ℕ)
      → get_row key k xs ≡ some x
      → key y ≡ key x
      → p y ≡ p x
      → length (filter p (put_row key y xs)) ≡ length (filter p xs)
  length-filter-write p key x y xs k h e same =
      length-filter-put_row p key y xs {x = x} (rw e (rw (get_row-key key k xs {x = x} h) h)) same

pub get_row-append_kept {ℓ} :
    {A : Type ℓ} (key : A → ℕ) (k : ℕ) (xs : List A) (y x : A)
    → get_row key k xs ≡ some x
    → get_row key k (xs ++ y ∷ []) ≡ some x
get_row-append_kept key k [] y x h = cc
get_row-append_kept key k (z ∷ xs) y x h = ground (arith, get_row-append_kept key k xs y x)
