-- ===== src/Base/Outcome.antt =====
-- Go's `(T, error)` results. The errors that the code tells apart by `errors.Is` are constructors.
use Prim.Native.String.{String}
use mathlib.Core.Path.{◌≡◌, refl}
use mathlib.Core.Logic.{◌⊎◌, inl, inr}
use mathlib.Core.Option.{Option, none, some}

pub data Error : Type 0 where
  not_found session_not_found unauthenticated : Error
  already_exists resource_changed invalid_arg : Error
  failed : String → Error

pub data Result {ℓ} (T : Type ℓ) : Type ℓ where
  ok : T → Result T
  err : Error → Result T

-- The value of a call whose error the caller skips by `continue`.
abbrev pub ok? {ℓ} : {A : Type ℓ} → Result A → Option A
ok? (ok a) = some a
ok? (err e) = none

-- A step that the error before it skips.
infixl 5 ◌>>=◌
abbrev pub ◌>>=◌ {ℓ κ} : {T : Type ℓ} {U : Type κ} → Result T → (T → Result U) → Result U
err why >>= next = err why
ok t >>= next = next t

pub Result-cases {ℓ} :
    {A : Type ℓ} (r : Result A) → ((a : A) × (r ≡ ok a)) ⊎ ((e : Error) × (r ≡ err e))
Result-cases (ok a) = inl (a, refl)
Result-cases (err e) = inr (e, refl)
