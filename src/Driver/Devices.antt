-- ===== src/Driver/Devices.antt =====
-- The device callbacks of internal/driver/wiresinkdriver.go: `AddDevice`, `UpdateDevice` and
-- `RemoveDevice`.
pub mod Defaults
pub mod Removal
use device_wiresink_go.Prelude.{List, [], ◌∷◌, Option, none, some, Text}
use device_wiresink_go.Prelude.Outcome.{Error, external, Result, ok, err}
use device_wiresink_go.Value.{Value}
use device_wiresink_go.State.{Gateway}
use device_wiresink_go.Config.Values.{Values, device_init, delete_device_values}
use device_wiresink_go.Config.Mapping.{delete_sensor_id_mappings_by_device}
use device_wiresink_go.Config.Defaults.{DeviceResource}
use device_wiresink_go.Driver.Commands.{Ran}

-- What the driver asks of the SDK: `GetDeviceByName`, of which it reads the profile's name, and
-- `GetProfileByName`, of which it reads the resources.
pub record Metadata : Type 0 where
  pub get_device_by_name : Text → Option Text
  pub get_profile_by_name : Text → Option (List DeviceResource)

module _ (parse_default : Text → Text → Value) where
  -- The loop over the resources. `DeviceInit` returns no error.
  unfoldable pub init_resources : Text → List DeviceResource → Values → Values
  unfolding device_init
  init_resources device [] values = values
  init_resources device (dr ∷ rest) values =
      init_resources device rest
        (device_init parse_default device dr.name dr.default_value dr.value_type values)

module _ (sdk : Metadata) (parse_default : Text → Text → Value) where
  -- `AddDevice`.
  unfoldable pub add_device : Text → Gateway → Ran
  unfolding init_resources
  add_device device g = elim (sdk.get_device_by_name device) [
    | none ↦ (g, some (external device))
    | some profile_name ↦ elim (sdk.get_profile_by_name profile_name) [
      | none ↦ (g, some (external profile_name))
      | some drs ↦ (record g { values = init_resources parse_default device drs g.values }, none)
    ]
  ]

  -- `UpdateDevice`: the same steps once more.
  unfoldable pub update_device : Text → Gateway → Ran
  unfolding init_resources
  update_device device g = elim (sdk.get_device_by_name device) [
    | none ↦ (g, some (external device))
    | some profile_name ↦ elim (sdk.get_profile_by_name profile_name) [
      | none ↦ (g, some (external profile_name))
      | some drs ↦ (record g { values = init_resources parse_default device drs g.values }, none)
    ]
  ]

-- `RemoveDevice`: the map from sensors is only looked at where the values were there.
-- `DeleteSensorIDMappingsByDevice` returns no error.
unfoldable pub remove_device : Text → Gateway → Ran
remove_device device g = elim (delete_device_values device g.values) [
  | err e ↦ (g, some e)
  | ok values ↦ (
    record g { values = values; mapping = delete_sensor_id_mappings_by_device device g.mapping },
    none,
  )
]
