-- ===== src/Config/Values/ReadBack.antt =====
-- What a reader of the value table sees after a write or a removal.
use device_wiresink_go.Prelude.{
  ◌≡◌, arith, ◌&&◌, none, some, if◌then◌else◌, Text, lookup, insert, text_eq, text_eq_iff,
  lookup-insert, lookup-delete,
}
use device_wiresink_go.Prelude.Outcome.{ok}
use device_wiresink_go.Value.{Value}
use device_wiresink_go.Config.Values.{
  Values, resources_of, set_device_value, get_device_value, delete_device_values,
}

lookup-resources_of :
    (d s : Text) (values : Values) → lookup s (resources_of d values) ≡ get_device_value d s values
unfolding get_device_value lookup
lookup-resources_of d s values = ground arith

-- After a write the value is read back at its device and resource, and every other resource of
-- every device reads as before.
pub get_device_value-set_device_value :
    (d r e s : Text) (v : Value) (values : Values)
    → get_device_value e s (set_device_value d r v values)
      ≡ (if text_eq d e && text_eq r s then some v else get_device_value e s values)
unfolding get_device_value set_device_value
get_device_value-set_device_value d r e s v values = ground (
  arith,
  text_eq_iff d e,
  lookup-resources_of d s values,
  lookup-insert r s v (resources_of d values),
  lookup-insert d e (insert r v (resources_of d values)) values,
)

-- DeleteDeviceValues removes all values of a device of the table and no others.
pub get_device_value-delete_device_values :
    (d e s : Text) (values after : Values)
    → delete_device_values d values ≡ ok after
    → get_device_value e s after ≡ (if text_eq d e then none else get_device_value e s values)
unfolding get_device_value delete_device_values
get_device_value-delete_device_values d e s values after h =
    ground (arith, lookup-delete d e values)
