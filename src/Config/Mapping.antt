-- ===== src/Config/Mapping.antt =====
-- internal/config/idToDevice.go and DeleteSensorIDMappingsByDevice of config.go: the map from the
-- EID of a sensor to the name of its device.
pub mod Rebuild
use device_wiresink_go.Prelude.{
  List, [], ◌∷◌, Option, none, some, if◌then◌else◌, Text, Bytes, Assoc, codes, text_eq, lookup,
  insert, delete,
}
use device_wiresink_go.Prelude.Outcome.{Error, no_mapping, Result, ok, err}
use device_wiresink_go.Value.{Value, string, bytes}
use device_wiresink_go.Config.Values.{Values}

-- `SensorIDToDeviceName`.
abbrev pub Mapping : Type 0
Mapping = Assoc Text

unfoldable pub add_mapping : Text → Text → Mapping → Mapping
add_mapping sensor device mapping = insert sensor device mapping

unfoldable pub delete_mapping : Text → Mapping → Result Mapping
delete_mapping sensor mapping = elim (lookup sensor mapping) [
  | none ↦ err (no_mapping sensor)
  | some device ↦ ok (delete sensor mapping)
]

unfoldable pub update_mapping : Text → Text → Mapping → Result Mapping
update_mapping sensor device mapping = elim (lookup sensor mapping) [
  | none ↦ err (no_mapping sensor)
  | some old ↦ ok (insert sensor device mapping)
]

unfoldable pub lookup_device_name : Text → Mapping → Option Text
lookup_device_name sensor mapping = lookup sensor mapping

-- The type switch of `UpdateSensorMapping`. `sprint` is `fmt.Sprint`.
unfoldable pub eid_text : (Value → Text) → Value → Text
eid_text sprint (string s) = s
eid_text sprint (bytes b) = b
eid_text sprint v = sprint v

-- The EID of a device, where it has one that is not empty.
unfoldable pub eid_of : (Value → Text) → Assoc Value → Option Text
unfolding eid_text
eid_of sprint resources = elim (lookup (codes "eid") resources) [
  | none ↦ none
  | some raw ↦ if text_eq (eid_text sprint raw) [] then none else some (eid_text sprint raw)
]

-- One round of the loop, by the EID of the device.
unfoldable pub record_eid : Option Text → Text → Mapping → Mapping
record_eid none device mapping = mapping
record_eid (some eid) device mapping = insert eid device mapping

-- The loop over `ValuesMap`; the list has the pairs in the order in which `range` meets them.
unfoldable pub sensor_mapping_loop : (Value → Text) → Values → Mapping → Mapping
unfolding record_eid
sensor_mapping_loop sprint [] mapping = mapping
sensor_mapping_loop sprint ((device, resources) ∷ rest) mapping =
    sensor_mapping_loop sprint rest (record_eid (eid_of sprint resources) device mapping)

unfoldable pub update_sensor_mapping : (Value → Text) → Values → Mapping
unfolding sensor_mapping_loop eid_of
update_sensor_mapping sprint values = sensor_mapping_loop sprint values []

-- The first loop of `DeleteSensorIDMappingsByDevice` collects, the second deletes.
unfoldable pub to_delete : Text → Mapping → List Text
to_delete device [] = []
to_delete device ((sensor, name) ∷ rest) =
    let more = to_delete device rest in if text_eq name device then sensor ∷ more else more

unfoldable pub delete_all : List Text → Mapping → Mapping
delete_all [] mapping = mapping
delete_all (sensor ∷ rest) mapping = delete_all rest (delete sensor mapping)

unfoldable pub delete_sensor_id_mappings_by_device : Text → Mapping → Mapping
unfolding to_delete delete_all
delete_sensor_id_mappings_by_device device mapping = delete_all (to_delete device mapping) mapping
