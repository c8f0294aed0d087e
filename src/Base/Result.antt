-- ===== src/Base/Result.antt =====
-- The result of a service call: a value, or the HTTP error that the handler raises. A raised error
-- rolls the request's database transaction back, so it carries no state.
use mathlib.Core.Path.{◌≡◌, refl}
use mathlib.Core.Bool.{Bool, true, false}

-- the status codes that the services raise
pub data HttpError : Type 0 where
  bad_request forbidden not_found conflict unprocessable : HttpError

pub data Outcome {ℓ} (A : Type ℓ) : Type ℓ where
  ok : A → Outcome A
  raised : HttpError → Outcome A

infixl 5 ◌>>=◌ ◌>>◌
abbrev pub ◌>>=◌ {ℓ κ} : {A : Type ℓ} {B : Type κ} → Outcome A → (A → Outcome B) → Outcome B
ok a >>= f = f a
raised e >>= f = raised e

abbrev pub ◌>>◌ {ℓ} : {B : Type ℓ} → Outcome (Unit {0}) → Outcome B → Outcome B
m >> k = m >>= λ _. k

-- `if c: raise HTTPException(e)`
abbrev pub raise_if : Bool → HttpError → Outcome (Unit {0})
raise_if true e = raised e
raise_if false e = ok tt

-- `if not c: raise HTTPException(e)`
abbrev pub require : Bool → HttpError → Outcome (Unit {0})
require true e = ok tt
require false e = raised e

pub >>=-eq_ok {ℓ κ} :
    {A : Type ℓ} {B : Type κ} (m : Outcome A) (f : A → Outcome B) {b : B}
    → (m >>= f) ≡ ok b
    → (a : A) × (m ≡ ok a) × (f a ≡ ok b)
>>=-eq_ok (ok a) f h = (a, refl, h)
>>=-eq_ok (raised e) f h = cc

abbrev pub is_ok {ℓ} : {A : Type ℓ} → Outcome A → Bool
is_ok (ok _) = true
is_ok (raised _) = false

-- What a guard that lets a call through says.
pub require-ok {ℓ} :
    {B : Type ℓ} (c : Bool) (e : HttpError) (k : Outcome B) {b : B}
    → (require c e >>= λ _. k) ≡ ok b
    → (c ≡ true) × (k ≡ ok b)
require-ok true e k h = (refl, h)
require-ok false e k h = cc

pub raise_if-ok {ℓ} :
    {B : Type ℓ} (c : Bool) (e : HttpError) (k : Outcome B) {b : B}
    → (raise_if c e >>= λ _. k) ≡ ok b
    → (c ≡ false) × (k ≡ ok b)
raise_if-ok true e k h = cc
raise_if-ok false e k h = (refl, h)

pub skip-ok {ℓ κ} :
    {A : Type ℓ} {B : Type κ} (m : Outcome A) (k : Outcome B) {b : B}
    → (m >>= λ _. k) ≡ ok b
    → k ≡ ok b
skip-ok (ok a) k h = h
skip-ok (raised e) k h = cc

-- the answer is a 404
abbrev pub is_missing {ℓ} : {A : Type ℓ} → Outcome A → Bool
is_missing (raised not_found) = true
is_missing _ = false

-- A chain is no 404, if none of its parts is one.
pub is_missing->>= {ℓ κ} :
    {A : Type ℓ} {B : Type κ} (m : Outcome A) (f : A → Outcome B)
    → is_missing m ≡ false
    → ((a : A) → is_missing (f a) ≡ false)
    → is_missing (m >>= f) ≡ false
is_missing->>= (ok a) f h k = k a
is_missing->>= (raised e) f h k = h
