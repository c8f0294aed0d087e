-- ===== src/Base/Queries.antt =====
-- Ordering, joining and counting rows, with what each keeps of the rows.
use mathlib.Core.Path.{◌≡◌, refl, ap, ap₂, ◌∙◌}
use mathlib.Core.Logic.{inl, inr}
use mathlib.Core.Bool.{Bool, true, false, ◌&&◌, ◌||◌}
use mathlib.Core.Option.{Option, some}
use mathlib.Core.List.{List, [], ◌∷◌, ◌++◌, map}
use native.Mathlib.Omega.{arith}
use treasury_os_app.Base.Tests.{if◌then◌else◌, Bool-cases, Option-cases, holds}
use treasury_os_app.Base.Lists.{All, In, here, there, filter, any, collect}

module _ {ℓ} {A : Type ℓ} where
  -- `ORDER BY`, `sort(key=…)`: a stable insertion sort by a test that is true where the first may
  -- stand before the second.
  abbrev pub insert_by : (A → A → Bool) → A → List A → List A
  insert_by before x [] = x ∷ []
  insert_by before x (y ∷ ys) =
      let rest = insert_by before x ys in if before x y then x ∷ y ∷ ys else y ∷ rest

  abbrev pub sort_by : (A → A → Bool) → List A → List A
  sort_by before [] = []
  sort_by before (x ∷ xs) = insert_by before x (sort_by before xs)

  pub insert_by-All {κ} :
      (P : A → Type κ) (before : A → A → Bool) (x : A) (ys : List A)
      → P x
      → All P ys
      → All P (insert_by before x ys)
  insert_by-All P before x [] p h = (p, tt)
  insert_by-All P before x (y ∷ ys) p h = elim (Bool-cases (before x y)) [
    | inl e ↦ rw e (p, h)
    | inr e ↦ rw e (h.0, insert_by-All P before x ys p h.1)
  ]

  pub sort_by-All {κ} :
      (P : A → Type κ) (before : A → A → Bool) (xs : List A) → All P xs → All P (sort_by before xs)
  sort_by-All P before [] h = tt
  sort_by-All P before (x ∷ xs) h =
      insert_by-All P before x (sort_by before xs) h.0 (sort_by-All P before xs h.1)

  pub any-insert_by :
      (p : A → Bool) (before : A → A → Bool) (x : A) (ys : List A)
      → any p (insert_by before x ys) ≡ (p x || any p ys)
  any-insert_by p before x [] = refl
  any-insert_by p before x (y ∷ ys) = ground (arith, any-insert_by p before x ys)

  -- Sorting loses and adds no row that a test could see.
  pub any-sort_by :
      (p : A → Bool) (before : A → A → Bool) (xs : List A) → any p (sort_by before xs) ≡ any p xs
  any-sort_by p before [] = refl
  any-sort_by p before (x ∷ xs) =
      any-insert_by p before x (sort_by before xs) ∙ ap (λ b. p x || b) (any-sort_by p before xs)

module _ {ℓ} {A : Type ℓ} where
  pub All-map_P {κ μ} :
      (P : A → Type κ) (Q : A → Type μ) (xs : List A) → ((x : A) → P x → Q x) → All P xs → All Q xs
  All-map_P P Q [] f h = tt
  All-map_P P Q (x ∷ xs) f h = (f x h.0, All-map_P P Q xs f h.1)

  pub All-In_self : (xs : List A) → All (λ x. In x xs) xs
  All-In_self [] = tt
  All-In_self (x ∷ xs) = (
    here refl,
    All-map_P (λ y. In y xs) (λ y. In y (x ∷ xs)) xs (λ y m. there m) (All-In_self xs),
  )

  pub All-zip {κ μ} :
      (P : A → Type κ) (Q : A → Type μ) (xs : List A)
      → All P xs
      → All Q xs
      → All (λ x. P x × Q x) xs
  All-zip P Q [] h k = tt
  All-zip P Q (x ∷ xs) h k = ((h.0, k.0), All-zip P Q xs h.1 k.1)

  pub collect-All {κ μ ν} :
      {B : Type κ} (P : A → Type μ) (Q : B → Type ν) (f : A → Option B) (xs : List A)
      → ((x : A) (y : B) → P x → f x ≡ some y → Q y)
      → All P xs
      → All Q (collect f xs)
  collect-All P Q f [] k h = tt
  collect-All P Q f (x ∷ xs) k h = elim (Option-cases (f x)) [
    | inl e ↦ rw e (collect-All P Q f xs k h.1)
    | inr (y, e) ↦ rw e (k x y h.0 e, collect-All P Q f xs k h.1)
  ]

  pub collect-append {κ} :
      {B : Type κ} (f : A → Option B) (xs ys : List A)
      → collect f (xs ++ ys) ≡ collect f xs ++ collect f ys
  collect-append f [] ys = refl
  collect-append f (x ∷ xs) ys = elim (Option-cases (f x)) [
    | inl e ↦ rw e (collect-append f xs ys)
    | inr (y, e) ↦ rw e (ap (λ l. y ∷ l) (collect-append f xs ys))
  ]

  pub filter-none : (p : A → Bool) (xs : List A) → any p xs ≡ false → filter p xs ≡ []
  filter-none p [] h = refl
  filter-none p (x ∷ xs) h = ground (arith, filter-none p xs)

-- What a test sees of filtered, joined and mapped rows.
module _ {ℓ} {A : Type ℓ} where
  pub any-filter : (p q : A → Bool) (xs : List A) → any p (filter q xs) ≡ any (λ x. q x && p x) xs
  any-filter p q [] = refl
  any-filter p q (x ∷ xs) = ground (arith, any-filter p q xs)

  pub any-map {κ} :
      {B : Type κ} (p : B → Bool) (f : A → B) (xs : List A)
      → any p (map f xs) ≡ any (λ x. p (f x)) xs
  any-map p f [] = refl
  any-map p f (x ∷ xs) = ap (λ b. p (f x) || b) (any-map p f xs)

  pub any-collect {κ} :
      {B : Type κ} (p : B → Bool) (f : A → Option B) (xs : List A)
      → any p (collect f xs) ≡ any (λ x. holds p (f x)) xs
  any-collect p f [] = refl
  any-collect p f (x ∷ xs) = elim (Option-cases (f x)) [
    | inl e ↦ rw e (any-collect p f xs)
    | inr (y, e) ↦ rw e (ap (λ b. p y || b) (any-collect p f xs))
  ]

  pub any-ext : (p q : A → Bool) (xs : List A) → ((x : A) → p x ≡ q x) → any p xs ≡ any q xs
  any-ext p q [] h = refl
  any-ext p q (x ∷ xs) h = ap₂ (λ a b. a || b) (h x) (any-ext p q xs h)

  pub any-none : (p : A → Bool) (xs : List A) → ((x : A) → p x ≡ false) → any p xs ≡ false
  any-none p [] h = refl
  any-none p (x ∷ xs) h = ground (arith, h x, any-none p xs h)

  pub In-any : (p : A → Bool) (xs : List A) (a : A) → In a xs → p a ≡ true → any p xs ≡ true
  In-any p [] a m h = elim m [ ]
  In-any p (x ∷ xs) a (here e) h = rw (← e) (rw h)
  In-any p (x ∷ xs) a (there m) h = ground (arith, In-any p xs a m h)

  pub any-In : (p : A → Bool) (xs : List A) → any p xs ≡ true → (x : A) × In x xs × (p x ≡ true)
  any-In p [] h = cc
  any-In p (x ∷ xs) h = elim (Bool-cases (p x)) [
    | inl e ↦ (x, here refl, e)
    | inr e ↦ let (y, m, q) = any-In p xs (rw e at h) in (y, there m, q)
  ]
