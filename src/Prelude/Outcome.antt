-- ===== src/Prelude/Outcome.antt =====
-- How a piece of Go code ends: with a value, with a value or an error, in a run-time panic, or not at
-- all.
use Prim.Native.Nat.{ℕ}
use mathlib.Core.Path.{◌≡◌, refl}
use mathlib.Core.Logic.{◌≢◌, ◌⊎◌, inl, inr}
use device_wiresink_go.Prelude.Maps.{Text}

-- A panic of a goroutine that nothing recovers ends the process.
pub data Outcome {ℓ} (A : Type ℓ) : Type ℓ where
  done : A → Outcome A
  panicked : Outcome A
  -- It waits for a channel that nobody reads.
  blocked : Outcome A
  -- No Go value: the fuel of a loop of the model ran out.
  stuck : Outcome A

infixl 5 ◌>>=◌
abbrev pub ◌>>=◌ {ℓ κ} : {A : Type ℓ} {B : Type κ} → Outcome A → (A → Outcome B) → Outcome B
done a >>= f = f a
panicked >>= f = panicked
blocked >>= f = blocked
stuck >>= f = stuck

-- The errors that the code returns, each with what its message names.
pub data Error : Type 0 where
  invalid_request_set_flag : ℕ → Error
  param_count : ℕ → Error
  unknown_parameter : Text → Error
  missing_value : Text → Error
  wrong_length : ℕ → ℕ → Error
  not_a_multiple : ℕ → ℕ → Error
  no_node_start : Error
  missing_comma : ℕ → Error
  missing_field : ℕ → Error
  no_mapping : Text → Error
  no_device : Text → Error
  no_eid : Text → Error
  eid_not_string : Text → Error
  odd_hex : ℕ → Error
  bad_hex_digit : ℕ → Error
  empty_hex : Error
  nil_payload : Error
  wrong_eid_length : ℕ → Error
  count_mismatch : ℕ → ℕ → Error
  no_value : Text → Text → Error
  overflow : Text → Error
  incompatible : Text → Error
  unsupported_type : Text → Error
  bad_number : Text → Error
  -- An error of a library that the code wraps and passes on.
  external : Text → Error
  -- No Go error: the fuel of a loop of the model that returns a `Result` ran out.
  out_of_fuel : Error

-- Go's `(value, error)` pair.
pub data Result {ℓ} (A : Type ℓ) : Type ℓ where
  ok : A → Result A
  err : Error → Result A

-- A chain that ends with a value has passed through a value.
pub >>=-eq-done {ℓ κ} :
    {A : Type ℓ} {B : Type κ} (m : Outcome A) (f : A → Outcome B) {b : B}
    → (m >>= f) ≡ done b
    → (a : A) × (m ≡ done a) × (f a ≡ done b)
>>=-eq-done (done a) f h = (a, refl, h)
>>=-eq-done panicked f h = cc
>>=-eq-done blocked f h = cc
>>=-eq-done stuck f h = cc

-- A chain runs out of fuel only where one of its parts does.
pub >>=-ne-stuck {ℓ κ} :
    {A : Type ℓ} {B : Type κ} (m : Outcome A) (f : A → Outcome B)
    → m ≢ stuck
    → ((a : A) → m ≡ done a → f a ≢ stuck)
    → (m >>= f) ≢ stuck
>>=-ne-stuck (done a) f h k = k a refl
>>=-ne-stuck panicked f h k = λ e. cc
>>=-ne-stuck blocked f h k = λ e. cc
>>=-ne-stuck stuck f h k = absurd (h refl)

pub Result-cases {ℓ} :
    {A : Type ℓ} (r : Result A) → ((a : A) × (r ≡ ok a)) ⊎ ((e : Error) × (r ≡ err e))
Result-cases (ok a) = inl (a, refl)
Result-cases (err e) = inr (e, refl)
