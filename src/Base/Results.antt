-- ===== src/Base/Results.antt =====
-- Exceptions as values: a Python function that raises returns `err` with the exception.
use mathlib.Core.Path.{◌≡◌, refl}
use mathlib.Core.Logic.{◌⊎◌, inl, inr}
use mathlib.Core.Bool.{Bool, true, false}

pub data Result {ℓ} (E : Type 0) (A : Type ℓ) : Type ℓ where
  err : E → Result E A
  ok : A → Result E A

-- `if test: raise e`
abbrev pub raise_if : {E : Type 0} → Bool → E → Result E (Unit {0})
raise_if false exception = ok tt
raise_if true exception = err exception

infixl 5 ◌>>=◌
abbrev pub ◌>>=◌ {ℓ κ} :
    {E : Type 0} {A : Type ℓ} {B : Type κ} → Result E A → (A → Result E B) → Result E B
err exception >>= next = err exception
ok value >>= next = next value

infixl 5 ◌>>◌
abbrev pub ◌>>◌ {ℓ} : {E : Type 0} {B : Type ℓ} → Result E (Unit {0}) → Result E B → Result E B
first >> rest = first >>= λ _. rest

pub Result-cases {ℓ} :
    {E : Type 0} {A : Type ℓ} (r : Result E A)
    → ((value : A) × (r ≡ ok value)) ⊎ ((exception : E) × (r ≡ err exception))
Result-cases (err exception) = inr (exception, refl)
Result-cases (ok value) = inl (value, refl)

-- Where a sequence returns, its first part has returned.
pub >>=-eq-ok {ℓ κ} :
    {E : Type 0} {A : Type ℓ} {B : Type κ} (first : Result E A) (next : A → Result E B) {final : B}
    → (first >>= next) ≡ ok final
    → (value : A) × (first ≡ ok value) × (next value ≡ ok final)
>>=-eq-ok (err exception) next e = cc
>>=-eq-ok (ok value) next e = (value, refl, e)

pub ok_injective {ℓ} :
    {E : Type 0} {A : Type ℓ} {a b : A} {r : Result E A} → r ≡ ok a → r ≡ ok b → a ≡ b
ok_injective e f = cc

-- Code behind a test that raises has only run if the test was false.
pub raise_if-ok {ℓ} :
    {E : Type 0} {B : Type ℓ} (test : Bool) (exception : E) {rest : Result E B} {value : B}
    → (raise_if test exception >> rest) ≡ ok value
    → (test ≡ false) × (rest ≡ ok value)
raise_if-ok true exception e = cc
raise_if-ok false exception e = (refl, e)
