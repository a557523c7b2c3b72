-- ===== src/Prelude/Results.antt =====
-- Code that raises: a value, or an error of a type that the component declares.
use mathlib.Core.Path.{◌≡◌, refl}
use mathlib.Core.Logic.{◌⊎◌, inl, inr}
use mathlib.Core.Bool.{Bool, true, false}

pub data Result {κ ℓ} (Error : Type κ) (Value : Type ℓ) : Type (κ ⊔ ℓ) where
  err : Error → Result Error Value
  ok : Value → Result Error Value

infixl 5 ◌>>=◌ ◌>>◌
-- What comes behind a call runs only if the call has not raised.
abbrev pub ◌>>=◌ {κ ℓ} :
    {Error : Type κ} {Value Next : Type ℓ}
    → Result Error Value
    → (Value → Result Error Next)
    → Result Error Next
call >>= then_do = elim call [ err raised ↦ err raised | ok value ↦ then_do value ]

abbrev pub ◌>>◌ {κ ℓ} :
    {Error : Type κ} {Value Next : Type ℓ}
    → Result Error Value
    → Result Error Next
    → Result Error Next
err raised >> next = err raised
ok value >> next = next

-- `if b: raise e`
abbrev pub raise_if {κ} : {Error : Type κ} → Bool → Error → Result Error (Unit {0})
raise_if false error = ok tt
raise_if true error = err error

pub Result-cases {κ ℓ} :
    {Error : Type κ} {Value : Type ℓ} (r : Result Error Value)
    → ((value : Value) × (r ≡ ok value)) ⊎ ((error : Error) × (r ≡ err error))
Result-cases (err error) = inr (error, refl)
Result-cases (ok value) = inl (value, refl)
