-- ===== src/Driver/Devices/Removal.antt =====
-- The state after `RemoveDevice` of internal/driver/wiresinkdriver.go.
use device_wiresink_go.Prelude.{
  ◌≡◌, ◌⊎◌, inl, inr, arith, none, some, if◌then◌else◌, Option-cases, Text, Assoc, text_eq, lookup,
  delete, Distinct,
}
use device_wiresink_go.Prelude.Outcome.{no_device, ok}
use device_wiresink_go.Value.{Value}
use device_wiresink_go.State.{Gateway}
use device_wiresink_go.Config.Values.{get_device_value, delete_device_values}
use device_wiresink_go.Config.Values.ReadBack.{get_device_value-delete_device_values}
use device_wiresink_go.Config.Mapping.{lookup_device_name, delete_sensor_id_mappings_by_device}
use device_wiresink_go.Config.Mapping.Rebuild.{lookup-delete_sensor_id_mappings_by_device}
use device_wiresink_go.Driver.Devices.{remove_device}

-- Neither the values nor the sensors of `device` are left in `after`; all others are as in `g`.
abbrev pub Removed : Text → Gateway → Gateway → Type 0
Removed device g after =
    ((e s : Text)
      → get_device_value e s after.values
        ≡ (if text_eq device e then none else get_device_value e s g.values))
    × ((sensor : Text)
        → lookup_device_name sensor after.mapping ≡ elim (lookup_device_name sensor g.mapping) [
          | none ↦ none
          | some name ↦ if text_eq name device then none else some name
        ])

-- In a state whose sensor map repeats no key, `RemoveDevice` removes the values and the sensors of
-- a device that is in the value table, and those of no other, and ends without an error; for a
-- device that is not in the value table it changes nothing, so that its sensors stay mapped, and
-- ends with an error.
pub remove_device-Removed :
    (device : Text) (g : Gateway)
    → Distinct g.mapping
    → ((resources : Assoc Value) × (after : Gateway) × (lookup device g.values ≡ some resources)
        × (remove_device device g ≡ (after, none))
        × Removed device g after)
      ⊎ ((lookup device g.values ≡ none) × (remove_device device g ≡ (g, some (no_device device))))
unfolding remove_device delete_device_values
remove_device-Removed device g distinct = elim (Option-cases (lookup device g.values)) [
  | inl missing ↦ inr (missing, ground arith)
  | inr (resources, found) ↦
      let deleted : delete_device_values device g.values ≡ ok (delete device g.values) =
        ground arith in
      inl (
        resources,
        record g {
          values = delete device g.values;
          mapping = delete_sensor_id_mappings_by_device device g.mapping;
        },
        found,
        ground arith,
        (
          λ e s. get_device_value-delete_device_values device e s g.values _ deleted,
          λ sensor. lookup-delete_sensor_id_mappings_by_device device sensor g.mapping distinct,
        ),
      )
]
