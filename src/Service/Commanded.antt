-- ===== src/Service/Commanded.antt =====
-- What the write commands, the timers and the callbacks of the SDK leave alone.
use device_wiresink_go.Prelude.{
  ℕ, ◌==◌, ◌≡◌, ◌∙◌, text_eq, refl, arith, false, List, [], ◌∷◌, Option, none, some, Option-cases,
  Bool-cases, inl, inr, length, Text, codes, ==_iff, Distinct, insert-Distinct, delete,
  delete-Distinct, lookup,
}
use device_wiresink_go.Prelude.Outcome.{Result-cases}
use device_wiresink_go.Value.{Value}
use device_wiresink_go.State.{Gateway}
use device_wiresink_go.Config.Values.{Values, get_device_value, delete_device_values}
use device_wiresink_go.Config.Mapping.{
  Mapping, eid_of, record_eid, sensor_mapping_loop, update_sensor_mapping, delete_all, to_delete,
  lookup_device_name, delete_sensor_id_mappings_by_device,
}
use device_wiresink_go.Config.Mapping.Rebuild.{delete_all-keeps_none}
use device_wiresink_go.Parser.Sharding.{reassemble_timeout}
use device_wiresink_go.Parser.Sharding.Caches.{Unfinished, delete-Open}
use device_wiresink_go.Parser.Sharding.Stalled.{Keeps, send_ack-Keeps}
use device_wiresink_go.Driver.Commands.{handle_write_commands}
use device_wiresink_go.Driver.Commands.Published.{
  handle_write_commands-known, handle_write_commands-refused,
}
use device_wiresink_go.Driver.Devices.{
  Metadata, init_resources, add_device, update_device, remove_device,
}
use device_wiresink_go.Config.Tool.Queue.{Fills, Fills-refl}
use device_wiresink_go.Driver.Health.{health_tick}
use device_wiresink_go.Driver.Health.Overdue.{watched, found-other, get_device_value-checked}
use device_wiresink_go.Config.Defaults.{DeviceResource}
use device_wiresink_go.Config.Values.ReadBack.{get_device_value-delete_device_values}
use device_wiresink_go.Driver.Devices.Defaults.{get_device_value-init_resources}
use device_wiresink_go.Service.Untouched.{
  Resources, nothing, of_device, Leaves, Alike, Alike-refl, written-Alike,
}

pub handle_write_commands-Alike :
    (clock : ℕ → ℕ) (device : Text) (names : List Text) (params : List ℕ) (g : Gateway)
    → Alike nothing g (handle_write_commands clock device names params g).0
handle_write_commands-Alike clock device names params g =
    elim (Option-cases (get_device_value device (codes "eid") g.values)) [
      | inl unknown ↦
          rw (handle_write_commands-refused clock device names params g (inl unknown))
            (Alike-refl nothing g)
      | inr (eid, known) ↦ elim (Bool-cases (length names == length params)) [
        | inl same ↦
            rw
              (handle_write_commands-known clock device names params eid g known
                ((==_iff (length names) (length params)).0 same))
              (Alike-refl nothing g)
        | inr differ ↦
            rw
              (handle_write_commands-refused clock device names params g
                (inr (λ same. absurd (ground (arith, ==_iff (length names) (length params))))))
              (Alike-refl nothing g)
      ]
    ]

pub add_device-Alike :
    (sdk : Metadata) (parse_default : Text → Text → Value) (device : Text) (g : Gateway)
    → Alike (of_device device) g (add_device sdk parse_default device g).0
      × Alike (of_device device) g (update_device sdk parse_default device g).0
unfolding add_device update_device
add_device-Alike sdk parse_default device g = elim (Option-cases (sdk.get_device_by_name device)) [
  | inl unknown ↦
      rw (add_device, update_device, unknown)
        (Alike-refl (of_device device) g, Alike-refl (of_device device) g)
  | inr (profile, known) ↦
      rw (add_device, update_device, known)
        (elim (Option-cases (sdk.get_profile_by_name profile)) [
          | inl missing ↦
              rw missing (Alike-refl (of_device device) g, Alike-refl (of_device device) g)
          | inr (drs, found) ↦ rw found (written drs, written drs)
        ])
]
  where
    written :
        (drs : List DeviceResource)
        → Alike
            (of_device device)
            g
            (record g { values = init_resources parse_default device drs g.values })
    written drs =
        written-Alike (of_device device) g (init_resources parse_default device drs g.values)
          (λ d r off.
            ground
              (arith, get_device_value-init_resources parse_default device d r drs g.values, off))

pub reassemble_timeout-Keeps :
    (key : Text) (g : Gateway) → Unfinished g → Keeps g (reassemble_timeout key g)
unfolding reassemble_timeout
reassemble_timeout-Keeps key g h = elim (Option-cases (lookup key g.caches)) [
  | inl none_there ↦ rw (reassemble_timeout, none_there) (h, refl, refl, refl, refl, refl)
  | inr (cache, found) ↦
      rw (reassemble_timeout, found)
        (send_ack-Keeps key cache.sseq cache.timer_pseq false
          (record g { caches = delete key g.caches }) (delete-Open key g.caches h))
]

-- The health check writes states alone.
abbrev pub states : Resources
states d r = text_eq (codes "state") r

pub health_tick-Alike :
    (now : ℕ) (g : Gateway) → Alike states g (record g { values = health_tick now g.values })
health_tick-Alike now g = written-Alike states g (health_tick now g.values) (λ d r off.
    get_device_value-checked now d r g.values
    ∙ found-other now g.values d r (watched now g.values d) off)

delete_all-Distinct :
    (sensors : List Text) (mapping : Mapping)
    → Distinct mapping
    → Distinct (delete_all sensors mapping)
unfolding delete_all
delete_all-Distinct [] mapping h = h
delete_all-Distinct (sensor ∷ rest) mapping h =
    delete_all-Distinct rest (delete sensor mapping) (delete-Distinct sensor mapping h)

-- `RemoveDevice` takes sensors out of the map at most.
pub remove_device-Distinct :
    (device : Text) (g : Gateway)
    → Distinct g.mapping
    → Distinct (remove_device device g).0.mapping
      × ((remove_device device g).0.caches ≡ g.caches)
      × ((remove_device device g).0.sdus ≡ g.sdus)
      × Fills g (remove_device device g).0
      × ((sensor : Text)
          → lookup_device_name sensor g.mapping ≡ none
          → lookup_device_name sensor (remove_device device g).0.mapping ≡ none)
      × Leaves (of_device device) g (remove_device device g).0
unfolding remove_device delete_sensor_id_mappings_by_device lookup_device_name
remove_device-Distinct device g h = elim (Result-cases (delete_device_values device g.values)) [
  | inl (values, e) ↦
      rw (remove_device, e)
        (
          delete_all-Distinct (to_delete device g.mapping) g.mapping h,
          refl,
          refl,
          Fills-refl g,
          λ sensor. delete_all-keeps_none (to_delete device g.mapping) sensor g.mapping,
          λ d r off.
              ground
                (arith, get_device_value-delete_device_values device d r g.values values e, off),
        )
  | inr (problem, e) ↦
      rw (remove_device, e)
        (h, refl, refl, Fills-refl g, λ sensor unmapped. unmapped, λ d r _. refl)
]

record_eid-Distinct :
    (eid : Option Text) (device : Text) (mapping : Mapping)
    → Distinct mapping
    → Distinct (record_eid eid device mapping)
unfolding record_eid
record_eid-Distinct none device mapping h = h
record_eid-Distinct (some eid) device mapping h = insert-Distinct eid device mapping h

sensor_mapping_loop-Distinct :
    (sprint : Value → Text) (values : Values) (mapping : Mapping)
    → Distinct mapping
    → Distinct (sensor_mapping_loop sprint values mapping)
unfolding sensor_mapping_loop
sensor_mapping_loop-Distinct sprint [] mapping h = h
sensor_mapping_loop-Distinct sprint ((device, resources) ∷ rest) mapping h =
    sensor_mapping_loop-Distinct sprint rest (record_eid (eid_of sprint resources) device mapping)
      (record_eid-Distinct (eid_of sprint resources) device mapping h)

pub update_sensor_mapping-Distinct :
    (sprint : Value → Text) (values : Values) → Distinct (update_sensor_mapping sprint values)
unfolding update_sensor_mapping
update_sensor_mapping-Distinct sprint values = sensor_mapping_loop-Distinct sprint values [] tt
