-- ===== src/Service/Startup.antt =====
-- The turns of the service while `Start` of internal/driver/wiresinkdriver.go runs, and the state that
-- it leaves to the turns behind it.
use device_wiresink_go.Prelude.{
  ℕ, true, false, ◌≡◌, ◌⊎◌, inl, inr, refl, sym, ap, subst, arith, [], Option, none, some, Text,
  codes, text_eq, text_eq_iff, lookup, Bool-cases,
}
use device_wiresink_go.Prelude.Outcome.{Error, ok}
use device_wiresink_go.Value.{Value}
use device_wiresink_go.State.{Gateway}
use device_wiresink_go.Config.Defaults.{Files, Registry, init_device_resources}
use device_wiresink_go.Config.Mapping.{lookup_device_name}
use device_wiresink_go.Config.Mapping.Rebuild.{Owns, update_sensor_mapping_sound}
use device_wiresink_go.Driver.Devices.{Metadata}
use device_wiresink_go.Driver.Start.{
  initial_mapping, initial, Started, failed, fatal, running, devices_yaml_path, profiles_dir,
  no_devices, broker_url, up_topic, client_id, initialize, start, map_sensors,
}
use device_wiresink_go.Mqtt.Connection.{Library, subscribe_sink_data, new_client-connected}
use device_wiresink_go.Mqtt.Ingress.{JsonCodec}
use device_wiresink_go.Service.{Service, Reaches}
use device_wiresink_go.Service.Commanded.{update_sensor_mapping-Distinct}
use device_wiresink_go.Service.Invariant.{Healthy, Reaches-Healthy, Reaches-Grows}

-- The service with a state, when no frame waits.
abbrev pub serving : Gateway → Service
serving g = record { queue = []; gateway = g; parser_blocked = false }

-- The service once `Start` has mapped the sensors.
abbrev pub mapped : (Value → Text) → Service → Service
mapped sprint s = record s { gateway = map_sensors sprint s.gateway }

lookup_device_name-initial :
    (sensor : Text)
    → (lookup_device_name sensor initial_mapping ≡ none) ⊎ (sensor ≡ codes "238A08262319")
unfolding lookup_device_name lookup
lookup_device_name-initial sensor = elim (Bool-cases (text_eq (codes "238A08262319") sensor)) [
  | inl same ↦ inr (sym ((text_eq_iff (codes "238A08262319") sensor).0 same))
  | inr other ↦ inl (ground (arith, other))
]

module _ (parse_default : Text → Text → Value) (files : Files) where
  running-injective : (g h : Gateway) → running g ≡ running h → g ≡ h
  running-injective g h e = cc

  abbrev loaded : Registry × Option Error
  loaded = init_device_resources parse_default files profiles_dir devices_yaml_path no_devices

  abbrev ready : Gateway
  ready = record initial { values = loaded.0.values }

  start-running :
      (mqtt : Library) (client : mqtt.Client) (g : Gateway)
      → start mqtt client parse_default files ≡ running g
      → (loaded.1 ≡ none) × (mqtt.subscribe client up_topic 0 ≡ none) × (ready ≡ g)
  unfolding start subscribe_sink_data
  start-running mqtt client g e = by_ends loaded.1 (mqtt.subscribe client up_topic 0) e
    where
      by_ends :
          (problem subscribe : Option Error)
          → elim problem as (λ p. Started) [
            | some e ↦ failed e
            | none ↦ elim subscribe as (λ p. Started) [ some e ↦ fatal | none ↦ running ready ]
          ]
            ≡ running g
          → (problem ≡ none) × (subscribe ≡ none) × (ready ≡ g)
      by_ends (some problem) subscribe q = cc
      by_ends none (some problem) q = cc
      by_ends none none q = (refl, refl, running-injective ready g q)

  ready-Healthy : Healthy (serving ready)
  ready-Healthy = (omega arith, tt, refl, (tt, unfold lookup in refl), omega arith)

  map_sensors-Healthy :
      (sprint : Value → Text) (s : Service) → Healthy s → Healthy (mapped sprint s)
  unfolding map_sensors
  map_sensors-Healthy sprint s (queue, fresh, none_done, distinct, room) =
      (queue, fresh, none_done, update_sensor_mapping-Distinct sprint s.gateway.values, room)

  -- Where `Initialize` returns a client and `Start` goes on with it after the subscription, the
  -- client was connected in ten seconds and subscribed to the topic of the sink, and every profile
  -- was loaded. Whatever turns of the service come before `Start` maps the sensors, only the sensor
  -- 238A08262319, with which the process begins, can be mapped in them; and once `Start` has mapped
  -- the sensors the state is healthy, and each sensor is mapped to a device whose values have its
  -- EID.
  pub start-Healthy :
      (codec : JsonCodec) (sdk : Metadata) (sprint : Value → Text) (mqtt : Library) (host : Text)
      (pid : ℕ) (client : mqtt.Client) (g : Gateway) (s : Service)
      → initialize mqtt host pid ≡ ok client
      → start mqtt client parse_default files ≡ running g
      → Reaches codec sdk parse_default (serving g) s
      → ((mqtt.connect client 10 ≡ (true, none)) × (mqtt.subscribe client up_topic 0 ≡ none))
        × (loaded.1 ≡ none)
        × (g.values ≡ loaded.0.values)
        × ((sensor : Text)
            → (lookup_device_name sensor s.gateway.mapping ≡ none)
              ⊎ (sensor ≡ codes "238A08262319"))
        × Healthy (mapped sprint s)
        × ((sensor device : Text)
            → lookup_device_name sensor (mapped sprint s).gateway.mapping ≡ some device
            → Owns sprint s.gateway.values sensor device)
  unfolding initialize map_sensors
  start-Healthy codec sdk sprint mqtt host pid client g s made e r =
      let (complete, subscribed, same) = start-running mqtt client g e in
      let (own, in_time) = new_client-connected mqtt broker_url (client_id host pid) client made in
      let from_ready = subst (λ h. Reaches codec sdk parse_default (serving h) s) (sym same) r in
      let sound =
        Reaches-Healthy codec sdk parse_default (serving ready) s ready-Healthy from_ready in
      let (more, closes, stays) =
        Reaches-Grows codec sdk parse_default (serving ready) s ready-Healthy from_ready in
      (
        (in_time, subscribed),
        complete,
        ap (λ (h : Gateway). h.values) (sym same),
        λ sensor. elim (lookup_device_name-initial sensor) [
          | inl unmapped ↦ inl (stays sensor unmapped)
          | inr demo ↦ inr demo
        ],
        map_sensors-Healthy sprint s sound,
        λ sensor device found.
            update_sensor_mapping_sound sprint sensor device s.gateway.values found,
      )
