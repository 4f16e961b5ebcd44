-- ===== src/Common/Results.antt =====
-- Results of fallible code, with an error type of the caller's.
use mathlib.Core.Path.{◌≡◌, refl}
use mathlib.Core.Bool.{Bool}
use mathlib.Core.Logic.{◌⊎◌, inl, inr}
use mathlib.Core.Option.{Option, none, some}
use native.Mathlib.Omega.{arith}
use rtbh_panel.Common.Tests.{if◌then◌else◌}

-- (value, err)
pub data Attempt (E A : Type 0) : Type 0 where
  err : E → Attempt E A
  ok : A → Attempt E A

-- if err != nil { return err }
infixl 5 ◌>>=◌
abbrev pub ◌>>=◌ : {E A B : Type 0} → Attempt E A → (A → Attempt E B) → Attempt E B
err cause >>= next = err cause
ok value >>= next = next value

-- The same after a check, whose value is not used.
infixl 5 ◌>>◌
abbrev pub ◌>>◌ : {E B : Type 0} → Attempt E (Unit {0}) → Attempt E B → Attempt E B
passed >> next = passed >>= λ _. next

abbrev pub check : {E : Type 0} → Bool → E → Attempt E (Unit {0})
check passed cause = if passed then ok tt else err cause

-- Both steps of a chain that succeeds have succeeded.
pub >>=-eq-ok :
    {E A B : Type 0} (first : Attempt E A) (next : A → Attempt E B) {value : B}
    → (first >>= next) ≡ ok value
    → (a : A) × (first ≡ ok a) × (next a ≡ ok value)
>>=-eq-ok (err cause) next h = absurd (ground arith)
>>=-eq-ok (ok a) next h = (a, refl, h)

-- An absent value is an error.
abbrev pub require : {E A : Type 0} → E → Option A → Attempt E A
require cause none = err cause
require cause (some a) = ok a

pub ok_injective : {E A : Type 0} {a b : A} → ◌≡◌ {A = Attempt E A} (ok a) (ok b) → a ≡ b
ok_injective h = ground arith

-- To split on a computed result and keep the equation.
pub Attempt-cases :
    {E A : Type 0} (attempt : Attempt E A)
    → ((cause : E) × (attempt ≡ err cause)) ⊎ ((value : A) × (attempt ≡ ok value))
Attempt-cases (err cause) = inl (cause, refl)
Attempt-cases (ok value) = inr (value, refl)
