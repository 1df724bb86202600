-- ===== src/Config/Mapping/Rebuild.antt =====
-- The map from sensors to devices after it was rebuilt from the value table, and after a device
-- was removed.
use device_wiresink_go.Prelude.{
  ◌≡◌, ◌≢◌, ◌⊎◌, inl, inr, refl, ap, ◌∙◌, arith, Bool, true, false, List, [], ◌∷◌, Option, none,
  some, if◌then◌else◌, Option-cases, Text, Assoc, text_eq, text_eq_iff, lookup, delete,
  lookup-insert, lookup-delete, Distinct, In,
}
use device_wiresink_go.Value.{Value}
use device_wiresink_go.Config.Values.{Values}
use device_wiresink_go.Config.Mapping.{
  Mapping, lookup_device_name, eid_of, record_eid, sensor_mapping_loop, update_sensor_mapping,
  to_delete, delete_all, delete_sensor_id_mappings_by_device,
}

-- A device of the table whose EID is `sensor`.
abbrev pub Owns : (Value → Text) → Values → Text → Text → Type 0
Owns sprint values sensor device =
    (resources : Assoc Value) × In device resources values × (eid_of sprint resources ≡ some sensor)

record_eid_sound :
    (o : Option Text) (name sensor device : Text) (mapping : Mapping)
    → lookup sensor (record_eid o name mapping) ≡ some device
    → (lookup sensor mapping ≡ some device) ⊎ (name ≡ device) × (o ≡ some sensor)
unfolding record_eid
record_eid_sound none name sensor device mapping e = inl e
record_eid_sound (some eid) name sensor device mapping e =
    ground (arith, lookup-insert eid sensor name mapping, text_eq_iff eid sensor)

record_eid_keeps :
    (o : Option Text) (name sensor : Text) (mapping : Mapping)
    → lookup sensor mapping ≢ none
    → lookup sensor (record_eid o name mapping) ≢ none
unfolding record_eid
record_eid_keeps none name sensor mapping h = h
record_eid_keeps (some eid) name sensor mapping h =
    ground (arith, lookup-insert eid sensor name mapping)

record_eid_adds :
    (name sensor : Text) (mapping : Mapping)
    → lookup sensor (record_eid (some sensor) name mapping) ≢ none
unfolding record_eid
record_eid_adds name sensor mapping =
    ground (arith, lookup-insert sensor sensor name mapping, text_eq_iff sensor sensor)

module _ (sprint : Value → Text) (sensor : Text) where
  loop_sound :
      (values : Values) (mapping : Mapping) (device : Text)
      → lookup sensor (sensor_mapping_loop sprint values mapping) ≡ some device
      → (lookup sensor mapping ≡ some device) ⊎ Owns sprint values sensor device
  unfolding sensor_mapping_loop
  loop_sound [] mapping device e = inl e
  loop_sound ((name, resources) ∷ rest) mapping device e =
      elim (loop_sound rest (record_eid (eid_of sprint resources) name mapping) device e) [
        | inr (r, i, found) ↦ inr (r, inr i, found)
        | inl before ↦
            elim (record_eid_sound (eid_of sprint resources) name sensor device mapping before) [
              | inl old ↦ inl old
              | inr (same, found) ↦ inr (resources, inl (same, refl), found)
            ]
      ]

  loop_keeps :
      (values : Values) (mapping : Mapping)
      → lookup sensor mapping ≢ none
      → lookup sensor (sensor_mapping_loop sprint values mapping) ≢ none
  unfolding sensor_mapping_loop
  loop_keeps [] mapping h = h
  loop_keeps ((name, resources) ∷ rest) mapping h =
      loop_keeps rest (record_eid (eid_of sprint resources) name mapping)
        (record_eid_keeps (eid_of sprint resources) name sensor mapping h)

  loop_complete :
      (values : Values) (mapping : Mapping) (device : Text)
      → Owns sprint values sensor device
      → lookup sensor (sensor_mapping_loop sprint values mapping) ≢ none
  unfolding sensor_mapping_loop
  loop_complete [] mapping device (r, i, found) = elim i [ ]
  loop_complete ((name, resources) ∷ rest) mapping device (r, inl (p, q), found) =
      loop_keeps rest (record_eid (eid_of sprint resources) name mapping)
        (rw (q, found) (record_eid_adds name sensor mapping))
  loop_complete ((name, resources) ∷ rest) mapping device (r, inr i, found) =
      loop_complete rest (record_eid (eid_of sprint resources) name mapping) device (r, i, found)

-- After UpdateSensorMapping a sensor is mapped only to a device of the value table that has the
-- sensor's EID, whatever was mapped before.
pub update_sensor_mapping_sound :
    (sprint : Value → Text) (sensor device : Text) (values : Values)
    → lookup_device_name sensor (update_sensor_mapping sprint values) ≡ some device
    → Owns sprint values sensor device
unfolding update_sensor_mapping lookup_device_name
update_sensor_mapping_sound sprint sensor device values e =
    elim (loop_sound sprint sensor values [] device e) [
      | inl old ↦ absurd (unfold lookup in cc)
      | inr owner ↦ owner
    ]

-- Where one device alone has the EID `sensor`, UpdateSensorMapping maps the sensor to it.
pub update_sensor_mapping_complete :
    (sprint : Value → Text) (sensor device : Text) (values : Values)
    → Owns sprint values sensor device
    → ((other : Text) → Owns sprint values sensor other → other ≡ device)
    → lookup_device_name sensor (update_sensor_mapping sprint values) ≡ some device
unfolding update_sensor_mapping lookup_device_name
update_sensor_mapping_complete sprint sensor device values owner alone =
    elim (Option-cases (lookup sensor (sensor_mapping_loop sprint values []))) [
      | inl missing ↦ absurd (loop_complete sprint sensor values [] device owner missing)
      | inr (found, e) ↦
          e ∙ ap some (alone found (update_sensor_mapping_sound sprint sensor found values e))
    ]

pub delete_all-keeps_none :
    (sensors : List Text) (sensor : Text) (mapping : Mapping)
    → lookup sensor mapping ≡ none
    → lookup sensor (delete_all sensors mapping) ≡ none
unfolding delete_all
delete_all-keeps_none [] sensor mapping e = e
delete_all-keeps_none (s ∷ rest) sensor mapping e =
    delete_all-keeps_none rest sensor (delete s mapping)
      (ground (arith, lookup-delete s sensor mapping))

-- Deleting the keys of a list one after the other.
abbrev mentions : Text → List Text → Bool
mentions sensor [] = false
mentions sensor (s ∷ rest) = if text_eq s sensor then true else mentions sensor rest

lookup-delete_all :
    (sensors : List Text) (sensor : Text) (mapping : Mapping)
    → lookup sensor (delete_all sensors mapping)
      ≡ (if mentions sensor sensors then none else lookup sensor mapping)
unfolding delete_all
lookup-delete_all [] sensor mapping = refl
lookup-delete_all (s ∷ rest) sensor mapping =
    ground (arith, lookup-delete_all rest sensor (delete s mapping), lookup-delete s sensor mapping)

abbrev names_device : Text → Option Text → Bool
names_device device none = false
names_device device (some name) = text_eq name device

mentions-to_delete :
    (device sensor : Text) (mapping : Mapping)
    → Distinct mapping
    → mentions sensor (to_delete device mapping) ≡ names_device device (lookup sensor mapping)
unfolding to_delete lookup
mentions-to_delete device sensor [] h = refl
mentions-to_delete device sensor ((s, name) ∷ rest) (h, fresh) =
    ground (arith, text_eq_iff s sensor, mentions-to_delete device sensor rest h)

-- In a map without repeated keys, removing a device removes exactly the sensors that were mapped to
-- it.
pub lookup-delete_sensor_id_mappings_by_device :
    (device sensor : Text) (mapping : Mapping)
    → Distinct mapping
    → lookup_device_name sensor (delete_sensor_id_mappings_by_device device mapping)
      ≡ elim (lookup_device_name sensor mapping) [
        | none ↦ none
        | some name ↦ if text_eq name device then none else some name
      ]
unfolding delete_sensor_id_mappings_by_device lookup_device_name
lookup-delete_sensor_id_mappings_by_device device sensor mapping h = ground (
  arith,
  lookup-delete_all (to_delete device mapping) sensor mapping,
  mentions-to_delete device sensor mapping h,
)
