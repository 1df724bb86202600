-- ===== src/Driver/Start.antt =====
-- `Start` of internal/driver/wiresinkdriver.go, with `Initialize` and `Stop`. The goroutines that
-- `Start` starts are turns of the service. Messages can arrive once it has subscribed, and frames can
-- be handled before it maps the sensors, so it stands here in two parts.
use device_wiresink_go.Prelude.{
  ℕ, [], ◌∷◌, ◌++◌, none, some, true, false, if◌then◌else◌, Text, codes,
}
use device_wiresink_go.Prelude.Outcome.{Error, Result, Outcome, done, panicked}
use device_wiresink_go.Value.{Value}
use device_wiresink_go.State.{Gateway}
use device_wiresink_go.Hex.{itoa}
use device_wiresink_go.Mqtt.Connection.{Library, new_client, subscribe_sink_data}
use device_wiresink_go.Config.Defaults.{Files, Registry, init_device_resources}
use device_wiresink_go.Config.Mapping.{Mapping, update_sensor_mapping}

-- `SensorIDToDeviceName` when the process begins.
abbrev pub initial_mapping : Mapping
initial_mapping = (codes "238A08262319", codes "Data-Demo") ∷ []

-- The package variables of internal/config and internal/frameparser when the process begins.
abbrev pub initial : Gateway
initial = record {
  values = [];
  mapping = initial_mapping;
  topo_list = [];
  resources = [];
  resources_flag = false;
  caches = [];
  sdus = [];
  at_commands = [];
  write_chan_closed = false;
  published = [];
  reports = [];
}

-- How the first part of `Start` ends: with an error, by `log.Fatal`, which ends the process, or with
-- the goroutines running.
pub data Started : Type 0 where
  failed : Error → Started
  fatal : Started
  running : Gateway → Started

abbrev pub devices_yaml_path : Text
devices_yaml_path = codes "../cmd/res/devices/devices.yaml"

abbrev pub profiles_dir : Text
profiles_dir = codes "../cmd/res/profiles"

abbrev pub no_devices : Registry
no_devices = record { resources = []; values = [] }

abbrev pub broker_url : Text
broker_url = codes "tcp://172.16.19.101:1883"

abbrev pub up_topic : Text
up_topic = codes "edgex/service/request/device_wiresink/up"

-- `fmt.Sprintf("wiresink-%s-%d", host, pid)`.
abbrev pub client_id : Text → ℕ → Text
client_id host pid = codes "wiresink-" ++ host ++ b'-' ∷ itoa pid

-- `Initialize`, as far as it can fail: the client that it leaves in `MqttClient`.
unfoldable pub initialize : (mqtt : Library) → Text → ℕ → Result mqtt.Client
unfolding new_client
initialize mqtt host pid = new_client mqtt broker_url (client_id host pid)

-- `Start` up to the mapping of the sensors, with the client that `Initialize` left.
unfoldable pub start : (mqtt : Library) → mqtt.Client → (Text → Text → Value) → Files → Started
unfolding subscribe_sink_data
start mqtt client parse_default files =
    let (registry, problem) =
      init_device_resources parse_default files profiles_dir devices_yaml_path no_devices in
    elim problem [
      | some e ↦ failed e
      | none ↦ elim (subscribe_sink_data mqtt client up_topic 0) [
        | some e ↦ fatal
        | none ↦ running (record initial { values = registry.values })
      ]
    ]

-- What `Start` does then, in whatever state the turns have left: it replaces the map of sensors. The
-- health check begins behind it.
unfoldable pub map_sensors : (Value → Text) → Gateway → Gateway
map_sensors sprint g = record g { mapping = update_sensor_mapping sprint g.values }

-- `Stop` closes `WriteChan`; closing it twice panics.
unfoldable pub stop : Gateway → Outcome Gateway
stop g = if g.write_chan_closed then panicked else done (record g { write_chan_closed = true })
