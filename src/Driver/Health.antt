-- ===== src/Driver/Health.antt =====
-- The health check of internal/driver/status_check.go.
pub mod Overdue
use device_wiresink_go.Prelude.{
  ℕ, ◌+◌, ◌-◌, ◌*◌, ◌%◌, ◌^◌, List, [], ◌∷◌, Option, none, some, if◌then◌else◌, map, Text, Assoc,
  codes,
}
use device_wiresink_go.Value.{Value, int64, uint32, uint8}
use device_wiresink_go.Config.Values.{Values, get_device_value, set_device_value}
use device_wiresink_go.Driver.Coerce.{int64_lt}

-- `int64(period) * 2 * int64(time.Second)`.
abbrev pub deadline : ℕ → ℕ
deadline period = period * 2 * 1000000000 % 2 ^ 64

-- `newState`, on int64 patterns.
unfoldable pub new_state : ℕ → ℕ → ℕ → ℕ
new_state now last_ts period =
    if int64_lt (deadline period) ((now + 2 ^ 64 - last_ts) % 2 ^ 64) then 1 else 0

-- The two type assertions.
abbrev pub monitored : Option Value → Option Value → Option (ℕ × ℕ)
monitored (some (int64 last_ts)) (some (uint32 period)) = some (last_ts, period)
monitored ts period = none

-- One device.
unfoldable pub check_device : ℕ → Text → Values → Values
unfolding new_state
check_device now device values =
    elim (monitored (get_device_value device (codes "lastDataTimestamp") values)
      (get_device_value device (codes "period") values)) [
        | none ↦ values
        | some (last_ts, period) ↦
            set_device_value device (codes "state") (uint8 (new_state now last_ts period)) values
      ]

unfoldable pub check_devices : ℕ → List Text → Values → Values
unfolding check_device
check_devices now [] values = values
check_devices now (device ∷ rest) values = check_devices now rest (check_device now device values)

abbrev pub key_of : Text × Assoc Value → Text
key_of (device, resources) = device

-- One tick of the loop: the names are read first, then each device is checked.
unfoldable pub health_tick : ℕ → Values → Values
unfolding check_devices
health_tick now values = check_devices now (map key_of values) values
