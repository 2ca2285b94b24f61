-- ===== src/Base/Results.antt =====
-- What a C++ call that may throw, or that returns a `Result` of the error library, ends with.
use mathlib.Core.Path.{◌≡◌, refl}
use mathlib.Core.Logic.{◌≢◌}
use mathlib.Core.Bool.{Bool, true, false}

pub data Result {ℓ κ} (E : Type ℓ) (A : Type κ) : Type (ℓ ⊔ κ) where
  err : E → Result E A
  ok : A → Result E A

-- The code behind a call runs if the call returned.
infixl 5 ◌>>=◌
abbrev pub ◌>>=◌ {ℓ κ ι} :
    {E : Type ℓ} {A : Type κ} {B : Type ι} (call : Result E A) → (A → Result E B) → Result E B
call >>= next = elim call [ err e ↦ err e | ok a ↦ next a ]

-- Go on if a test succeeds, fail with an error if not.
abbrev pub require {ℓ} : {E : Type ℓ} → Bool → E → Result E (Unit {0})
require true e = ok tt
require false e = err e

infixl 5 ◌>>◌
abbrev pub ◌>>◌ {ℓ ι} : {E : Type ℓ} {B : Type ι} → Result E (Unit {0}) → Result E B → Result E B
m >> k = m >>= λ _. k

-- The value that a result holds satisfies `P`; an error satisfies nothing.
abbrev pub Returns {ℓ κ} : {E : Type ℓ} {A : Type κ} → Result E A → (A → Type 0) → Type 0
Returns (ok a) P = P a
Returns (err e) P = ⊥

-- The same as a record: the value, the equation, and its property.
pub record Yields {ℓ} {E A : Type ℓ} (m : Result E A) (P : A → Type 0) : Type ℓ where
  pub value : A
  pub returned : m ≡ ok value
  pub holds : P value

pub Yields-of_Returns {ℓ} :
    {E A : Type ℓ} (m : Result E A) (P : A → Type 0) → Returns m P → Yields m P
Yields-of_Returns (ok a) P p = record { value = a; returned = refl; holds = p }
Yields-of_Returns (err e) P p = absurd p

pub Yields-weaken {ℓ} :
    {E A : Type ℓ} {m : Result E A} {P : A → Type 0} (Q : A → Type 0)
    → Yields m P
    → ((a : A) → P a → Q a)
    → Yields m Q
Yields-weaken Q y f = record { value = y.value; returned = y.returned; holds = f y.value y.holds }

pub Yields-ok {ℓ} : {E A : Type ℓ} {a : A} (P : A → Type 0) → P a → Yields {E = E} (ok a) P
Yields-ok P p = record { value = _; returned = refl; holds = p }

-- An error that neither a call nor the code behind it ends with.
pub >>=-ne_err {ℓ} :
    {E A B : Type ℓ} (m : Result E A) (f : A → Result E B) (e : E)
    → m ≢ err e
    → ((a : A) → f a ≢ err e)
    → (m >>= f) ≢ err e
>>=-ne_err (ok a) f e h k = k a
>>=-ne_err (err x) f e h k = λ q. h (cc)
