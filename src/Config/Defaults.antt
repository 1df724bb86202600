-- ===== src/Config/Defaults.antt =====
-- The defaults of the device profiles: `parseDefaultValue`, `InitDeviceResources` and
-- `GetDeviceResources` of internal/config/config.go.
pub mod Loaded
use device_wiresink_go.Prelude.{
  ℕ, List, [], ◌∷◌, ◌++◌, Option, none, some, if◌then◌else◌, Bool, true, false, Text, Assoc, codes,
  text_eq, lookup, insert,
}
use device_wiresink_go.Prelude.Outcome.{Error, Result, ok, err}
use device_wiresink_go.Value.{Value, float32, uint16, uint8, bool, string, float32_array, object}
use device_wiresink_go.Strconv.{parse_uint, parse_bool, Runtime}
use device_wiresink_go.Config.Values.{Values}

-- `DeviceEntry`, and what the code reads of `DeviceResource` and `ResourceProperty`.
pub record DeviceEntry : Type 0 where
  pub name : Text
  pub profile_name : Text

pub record DeviceResource : Type 0 where
  pub name : Text
  pub value_type : Text
  pub default_value : Text

-- encoding/json on a default: an array of float32, and whether the text is an object.
pub record Json : Type 0 where
  pub float32_array : Text → Option (List ℕ)
  pub is_object : Text → Bool

-- `parseDefaultValue`: the text itself where it is no value of its type.
unfoldable pub parse_default_value : Runtime → Json → Text → Text → Value
unfolding parse_uint parse_bool
parse_default_value r json val_str vt =
    if text_eq vt (codes "Float32")
    then elim (r.parse_float 32 val_str) [ some f ↦ float32 (r.narrow f) | none ↦ string val_str ]
    else if text_eq vt (codes "Uint16")
    then elim (parse_uint 16 val_str) [ some u ↦ uint16 u | none ↦ string val_str ]
    else if text_eq vt (codes "Uint8")
    then elim (parse_uint 8 val_str) [ some u ↦ uint8 u | none ↦ string val_str ]
    else if text_eq vt (codes "Bool")
    then elim (parse_bool val_str) [ some b ↦ bool b | none ↦ string val_str ]
    else if text_eq vt (codes "Float32Array")
    then elim (json.float32_array val_str) [ some arr ↦ float32_array arr | none ↦ string val_str ]
    else if text_eq vt (codes "Object")
    then (if json.is_object val_str then object val_str else string val_str)
    else string val_str

-- `os.ReadFile`, `filepath.Join` with the suffix `.yaml`, and `yaml.Unmarshal`.
pub record Files : Type 0 where
  pub read_file : Text → Result Text
  pub profile_path : Text → Text → Text
  pub devices_yaml : Text → Result (List DeviceEntry)
  pub profile_yaml : Text → Result (List DeviceResource)

-- `resourcesMap` and `ValuesMap`.
pub record Registry : Type 0 where
  pub resources : Assoc (List DeviceResource)
  pub values : Values

module _ (files : Files) (profiles_dir : Text) where
  -- Reading and decoding the profile of a device.
  unfoldable pub profile_of : DeviceEntry → Result (List DeviceResource)
  profile_of entry = elim (files.read_file (files.profile_path profiles_dir entry.profile_name)) [
    | err e ↦ err e
    | ok raw ↦ files.profile_yaml raw
  ]

module _ (parse_default : Text → Text → Value) where
  -- The inner loop: the defaults of one profile, written into a new map.
  unfoldable pub write_defaults : List DeviceResource → Assoc Value → Assoc Value
  write_defaults [] fresh = fresh
  write_defaults (dr ∷ rest) fresh =
      write_defaults rest (insert dr.name (parse_default dr.default_value dr.value_type) fresh)

  unfoldable pub load_entry : DeviceEntry → List DeviceResource → Registry → Registry
  unfolding write_defaults
  load_entry entry drs g = record {
    resources = insert entry.name drs g.resources;
    values = insert entry.name (write_defaults drs []) g.values;
  }

  module _ (files : Files) (profiles_dir : Text) where
    -- The loop over the devices; an error leaves what was loaded before.
    unfoldable pub load_entries : List DeviceEntry → Registry → Registry × Option Error
    unfolding profile_of load_entry
    load_entries [] g = (g, none)
    load_entries (entry ∷ rest) g = elim (profile_of files profiles_dir entry) [
      | err e ↦ (g, some e)
      | ok drs ↦ load_entries rest (load_entry entry drs g)
    ]

    -- `InitDeviceResources`.
    unfoldable pub init_device_resources : Text → Registry → Registry × Option Error
    unfolding load_entries
    init_device_resources devices_path g = elim (files.read_file devices_path) [
      | err e ↦ (g, some e)
      | ok raw ↦ elim (files.devices_yaml raw) [
        | err e ↦ (g, some e)
        | ok entries ↦ load_entries entries g
      ]
    ]

-- `GetDeviceResources`.
unfoldable pub get_device_resources : Text → Registry → Option (List DeviceResource)
get_device_resources device g = lookup device g.resources
