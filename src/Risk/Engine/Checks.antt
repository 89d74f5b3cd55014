-- ===== src/Risk/Engine/Checks.antt =====
-- The outcome of a run of gates: it passes with a value, or the first gate that fails rejects, or an
-- exception leaves the function.
use arb_system.Base.{Bool, true, false, ◌≡◌, refl, ap}
use arb_system.Models.{RejectReason}

pub data Check (A : Type 0) : Type 0 where
  passed : A → Check A
  rejected : RejectReason → Check A
  raised : Check A

infixl 5 ◌>>=◌ ◌>>◌
abbrev pub ◌>>=◌ : {A B : Type 0} → Check A → (A → Check B) → Check B
passed a >>= f = f a
rejected r >>= f = rejected r
raised >>= f = raised

abbrev pub ◌>>◌ : {A B : Type 0} → Check A → Check B → Check B
m >> k = m >>= λ _. k

abbrev pub reject_if : Bool → RejectReason → Check (Unit {0})
reject_if true r = rejected r
reject_if false r = passed tt

-- Inversion of a bind that passed.
pub >>=-eq-passed :
    {A B : Type 0} (m : Check A) (f : A → Check B) {b : B}
    → (m >>= f) ≡ passed b
    → (a : A) × (m ≡ passed a) × (f a ≡ passed b)
>>=-eq-passed (passed a) f h = (a, refl, h)
>>=-eq-passed (rejected r) f h = cc
>>=-eq-passed raised f h = cc

abbrev value_or : {A : Type 0} → A → Check A → A
value_or d (passed a) = a
value_or d (rejected r) = d
value_or d raised = d

pub passed-injective : {A : Type 0} (a b : A) → passed a ≡ passed b → a ≡ b
passed-injective a b h = ap (value_or a) h
