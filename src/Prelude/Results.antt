-- ===== src/Prelude/Results.antt =====
-- A call that may throw, as a value: what it returns, or the message it throws.
use mathlib.Core.Path.{◌≡◌, refl}
use mathlib.Core.Logic.{◌⊎◌, ◌≢◌, inl, inr}
use mathlib.Core.List.{◌++◌}
use wosh.Prelude.Strings.{Text, codes}

pub data Result (A : Type 0) : Type 0 where
  err : Text → Result A
  ok : A → Result A

-- `try`: what follows a call that returned, and what a call throws passes on.
infixl 5 ◌>>=◌
abbrev pub ◌>>=◌ : {A B : Type 0} → Result A → (A → Result B) → Result B
err message >>= next = err message
ok value >>= next = next value

-- The same after a call that returns nothing.
infixl 5 ◌>>◌
abbrev pub ◌>>◌ : {B : Type 0} → Result (Unit {0}) → Result B → Result B
first >> second = first >>= λ done. second

-- `errArm` of the host stores, around a body
abbrev pub err_arm : {A : Type 0} → Text → Result A → Result A
err_arm what (err e) = err (what ++ (codes ": " ++ e))
err_arm what (ok a) = ok a

pub ok_injective : {A : Type 0} {a b : A} → ok a ≡ ok b → a ≡ b
ok_injective h = cc

pub err_not_ok : {A : Type 0} {e : Text} {a : A} → err e ≢ ok a
err_not_ok h = cc

pub Result-cases : {A : Type 0} (m : Result A) → ((a : A) × (m ≡ ok a)) ⊎ ((e : Text) × (m ≡ err e))
Result-cases (ok a) = inl (a, refl)
Result-cases (err e) = inr (e, refl)

-- What a chain returned, each of its calls returned.
pub >>=-returned :
    {A B : Type 0} (m : Result A) (next : A → Result B) {b : B}
    → (m >>= next) ≡ ok b
    → (a : A) × (m ≡ ok a) × (next a ≡ ok b)
>>=-returned (err message) next h = absurd (err_not_ok h)
>>=-returned (ok value) next h = (value, refl, h)

-- How the database answers: it does not open, its transaction is refused with a message, or it
-- works.
pub data Access : Type 0 where
  closed working : Access
  refused : Text → Access
