-- ===== src/Config/Values.antt =====
-- The value table of internal/config/config.go: device name, then resource name.
pub mod ReadBack
use device_wiresink_go.Prelude.{
  Bool, true, false, List, [], ◌∷◌, Option, none, some, Text, Assoc, lookup, insert, delete,
}
use device_wiresink_go.Prelude.Outcome.{Error, no_device, Result, ok, err}
use device_wiresink_go.Value.{Value}

-- `ValuesMap`. Its readers and writers run one at a time, under `Mu`.
abbrev pub Values : Type 0
Values = Assoc (Assoc Value)

-- `make(map[string]interface{})` where the device has no map yet.
abbrev pub resources_of : Text → Values → Assoc Value
resources_of device values = elim (lookup device values) [ some resources ↦ resources | none ↦ [] ]

unfoldable pub set_device_value : Text → Text → Value → Values → Values
set_device_value device resource value values =
    insert device (insert resource value (resources_of device values)) values

unfoldable pub get_device_value : Text → Text → Values → Option Value
get_device_value device resource values = elim (lookup device values) [
  | none ↦ none
  | some resources ↦ lookup resource resources
]

-- The copy of a map is the map: later writes do not reach a value.
unfoldable pub get_device_values : Text → Values → Option (Assoc Value)
get_device_values device values = lookup device values

-- `DeviceInit`. `parse_default` is `parseDefaultValue` of the default and its type.
unfoldable pub device_init : (Text → Text → Value) → Text → Text → Text → Text → Values → Values
unfolding set_device_value
device_init parse_default device resource default_value value_type values =
    set_device_value device resource (parse_default default_value value_type) values

unfoldable pub delete_device_values : Text → Values → Result Values
delete_device_values device values = elim (lookup device values) [
  | none ↦ err (no_device device)
  | some resources ↦ ok (delete device values)
]
