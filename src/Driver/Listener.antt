-- ===== src/Driver/Listener.antt =====
-- `StartControlListener` of internal/driver/listener.go.
pub mod Rounds
use device_wiresink_go.Prelude.{
  ℕ, ◌==◌, ◌||◌, Bool, true, false, Option, none, some, if◌then◌else◌, Text, Assoc, text_eq, lookup,
}
use device_wiresink_go.Prelude.Outcome.{Outcome, done, panicked, ◌>>=◌}
use device_wiresink_go.Value.{
  Value, float32, uint8, uint16, uint32, int16, int64, int8, int32, int, uint64, uint, float64,
  bool, string, bytes, float32_array, uint16_array, topology, object,
}
use device_wiresink_go.State.{Gateway}
use device_wiresink_go.Config.Values.{get_device_values}
use device_wiresink_go.Parser.Params.{store_value}

abbrev bool_eq : Bool → Bool → Bool
bool_eq true b = b
bool_eq false true = false
bool_eq false false = true

-- `==` on two values of type `any`: two values of the same type that has no equality panic. `float_eq`
-- is `==` on floating-point numbers, by their patterns; the first argument is their size.
unfoldable pub any_eq : (ℕ → ℕ → ℕ → Bool) → Value → Value → Outcome Bool
any_eq float_eq (float32 x) (float32 y) = done (float_eq 32 x y)
any_eq float_eq (float64 x) (float64 y) = done (float_eq 64 x y)
any_eq float_eq (uint8 x) (uint8 y) = done (x == y)
any_eq float_eq (uint16 x) (uint16 y) = done (x == y)
any_eq float_eq (uint32 x) (uint32 y) = done (x == y)
any_eq float_eq (uint64 x) (uint64 y) = done (x == y)
any_eq float_eq (uint x) (uint y) = done (x == y)
any_eq float_eq (int8 x) (int8 y) = done (x == y)
any_eq float_eq (int16 x) (int16 y) = done (x == y)
any_eq float_eq (int32 x) (int32 y) = done (x == y)
any_eq float_eq (int64 x) (int64 y) = done (x == y)
any_eq float_eq (int x) (int y) = done (x == y)
any_eq float_eq (bool x) (bool y) = done (bool_eq x y)
any_eq float_eq (string x) (string y) = done (text_eq x y)
any_eq float_eq (bytes x) (bytes y) = panicked
any_eq float_eq (float32_array x) (float32_array y) = panicked
any_eq float_eq (uint16_array x) (uint16_array y) = panicked
any_eq float_eq (topology x) (topology y) = panicked
any_eq float_eq (object x) (object y) = panicked
any_eq float_eq x y = done false

-- The goroutine's own variable `last`, nil at first, with the state of the service.
pub record Listener : Type 0 where
  pub last : Option Value
  pub gateway : Gateway

module _ (float_eq : ℕ → ℕ → ℕ → Bool) (handler : Value → Gateway → Gateway)
    (device resource : Text) where
  abbrev same_as_last : Value → Option Value → Outcome Bool
  same_as_last cur none = done false
  same_as_last cur (some last) = any_eq float_eq cur last

  -- The value has changed: the handler, then the value set back to the int 0.
  unfoldable pub handle_change : Value → Gateway → Listener
  handle_change cur g = record {
    last = some cur;
    gateway = store_value device resource (int 0) (handler cur g);
  }

  -- One tick.
  unfoldable pub listener_tick : Listener → Outcome Listener
  unfolding handle_change any_eq
  listener_tick s = elim (get_device_values device s.gateway.values) [
    | none ↦ done s
    | some vals ↦ elim (lookup resource vals) [
      | none ↦ done s
      | some cur ↦
          same_as_last cur s.last >>= λ same. done (if same then s else handle_change cur s.gateway)
    ]
  ]
