-- ===== src/Base/Errors.antt =====
-- Go's `error` values, the pair of a value and an error, and the ways a call ends.
use Prim.Native.String.{String, ◌++◌}
use mathlib.Core.Path.{◌≡◌, refl}
use mathlib.Core.Logic.{◌⊎◌, inl, inr}

-- `message` is `errors.New` and `fmt.Errorf` without `%w`; `wrap` is `fmt.Errorf("…: %w", err)`.
pub data Error : Type 0 where
  message : String → Error
  wrap : String → Error → Error

-- `err.Error()`
abbrev pub error_text : Error → String
error_text (message text) = text
error_text (wrap text e) = text ++ (": " ++ error_text e)

-- `%q`, for a text that needs no escapes.
abbrev pub quoted : String → String
quoted text = "\"" ++ (text ++ "\"")

-- A result `(T, error)` of which the callers read only one half.
pub data Result {ℓ} (A : Type ℓ) : Type ℓ where
  ok : A → Result A
  err : Error → Result A

infixl 5 ◌>>=◌ ◌>>◌
abbrev pub ◌>>=◌ {ℓ κ} : {T : Type ℓ} {U : Type κ} → Result T → (T → Result U) → Result U
err failed >>= rest = err failed
ok value >>= rest = rest value

abbrev pub ◌>>◌ {ℓ} : {U : Type ℓ} → Result (Unit {0}) → Result U → Result U
first >> second = first >>= λ _. second

-- `if err != nil { return fmt.Errorf("…: %w", err) }`
abbrev pub context {ℓ} : {A : Type ℓ} → String → Result A → Result A
context text (ok a) = ok a
context text (err e) = err (wrap text e)

-- How a call ends: it returns, it panics, or it waits for ever on a lock that nobody releases.
pub data Outcome {ℓ} (A : Type ℓ) : Type ℓ where
  returns : A → Outcome A
  panics : Outcome A
  blocks : Outcome A

pub Returns-cases {ℓ} :
    {A : Type ℓ} (o : Outcome A) → ((a : A) × (o ≡ returns a)) ⊎ ((o ≡ panics) ⊎ (o ≡ blocks))
Returns-cases (returns a) = inl (a, refl)
Returns-cases panics = inr (inl refl)
Returns-cases blocks = inr (inr refl)

pub Result-cases {ℓ} :
    {A : Type ℓ} (r : Result A) → ((a : A) × (r ≡ ok a)) ⊎ ((e : Error) × (r ≡ err e))
Result-cases (ok a) = inl (a, refl)
Result-cases (err e) = inr (e, refl)
