-- ===== src/Base/Results.antt =====
-- Go's `(value, error)` results. The errors are those that the storage layer can return.
use mathlib.Core.Path.{◌≡◌, refl}
use mathlib.Core.Logic.{◌⊎◌, inl, inr}
use mathlib.Core.Option.{Option, none, some}

pub data Error : Type 0 where
  media_not_found album_not_found : Error
  json_error bolt_error : Error
  invalid_credentials : Error
  hash_error rand_error : Error

pub data Result {ℓ} (A : Type ℓ) : Type ℓ where
  err : Error → Result A
  ok : A → Result A

-- `if err != nil { return err }` between two steps.
infixl 5 ◌>>=◌
abbrev pub ◌>>=◌ {ℓ κ} :
    {A : Type ℓ} {B : Type κ} (step : Result A) (next : A → Result B) → Result B
err e >>= next = err e
ok a >>= next = next a

-- Inversion of a successful bind.
pub >>=-eq-ok {ℓ κ} :
    {A : Type ℓ} {B : Type κ} (step : Result A) (next : A → Result B) {result : B}
    → (step >>= next) ≡ ok result
    → (between : A) × (step ≡ ok between) × (next between ≡ ok result)
>>=-eq-ok (err e) next h = cc
>>=-eq-ok (ok between) next h = (between, refl, h)

-- A call that may fail without saying why, under the error that the caller reports.
abbrev pub or_error {ℓ} : {A : Type ℓ} → Error → Option A → Result A
or_error e none = err e
or_error e (some a) = ok a

pub or_error-ok {ℓ} :
    {A : Type ℓ} (e : Error) (o : Option A) {a : A} → or_error e o ≡ ok a → o ≡ some a
or_error-ok e none h = cc
or_error-ok e (some a) h = cc

-- A step whose error the caller drops: the state stays as it was.
abbrev pub or_keep {ℓ} : {A : Type ℓ} → Result A → A → A
or_keep (ok a) b = a
or_keep (err e) b = b

pub Result-cases {ℓ} :
    {A : Type ℓ} (r : Result A)
    → ((value : A) × (r ≡ ok value)) ⊎ ((error : Error) × (r ≡ err error))
Result-cases (ok a) = inl (a, refl)
Result-cases (err e) = inr (e, refl)

-- A read finds nothing, with or without an error, or finds a value.
pub loaded-cases {ℓ} :
    {A : Type ℓ} (r : Result (Option A))
    → ((r ≡ ok none) ⊎ ((e : Error) × (r ≡ err e))) ⊎ ((a : A) × (r ≡ ok (some a)))
loaded-cases (ok none) = inl (inl refl)
loaded-cases (ok (some a)) = inr (a, refl)
loaded-cases (err e) = inl (inr (e, refl))
