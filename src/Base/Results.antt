-- ===== src/Base/Results.antt =====
-- Go errors as values. `wrap m e` is an error of fmt.Errorf with the message `m` and `%w` at `e`:
-- comparing it with a sentinel by `==` fails, unwrapping it gives `e`.
use mathlib.Core.Path.{◌≡◌, refl}
use mathlib.Core.Logic.{◌⊎◌, inl, inr}
use agentreg.Base.Texts.{Text}

pub data Error : Type 0 where
  -- the sentinels of internal/store and internal/registry
  not_found conflict token_invalid forbidden invalid_input : Error
  -- an error of a driver, the file system or the network, with its message
  driver : Text → Error
  wrap : Text → Error → Error

pub data Result {ℓ} (A : Type ℓ) : Type ℓ where
  ok : A → Result A
  err : Error → Result A

pub Result-cases {ℓ} :
    {A : Type ℓ} (r : Result A) → ((a : A) × (r ≡ ok a)) ⊎ ((e : Error) × (r ≡ err e))
Result-cases (ok a) = inl (a, refl)
Result-cases (err e) = inr (e, refl)

pub ok-injective {ℓ} : {A : Type ℓ} {a b : A} → ok a ≡ ok b → a ≡ b
ok-injective h = cc
