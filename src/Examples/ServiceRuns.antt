-- ===== src/Examples/ServiceRuns.antt =====
-- The theorems on the turns of the service at concrete inputs.
use device_wiresink_go.Prelude.{
  inr, true, zero, suc, inl, ℕ, ◌⊎◌, ◌≡◌, refl, sym, ap, arith, List, Bool, false, [], ◌∷◌, none,
  some, Bytes, Text, codes, text_eq, lookup, insert,
}
use device_wiresink_go.Prelude.Outcome.{done, blocked, ok}
use device_wiresink_go.Value.{Value, int, string}
use device_wiresink_go.State.{Gateway}
use device_wiresink_go.Hex.{encode_upper}
use device_wiresink_go.Config.Values.{get_device_value}
use device_wiresink_go.Mqtt.Ingress.{JsonCodec, text, payload_bytes, sink_msg_handler}
use device_wiresink_go.Mqtt.Ingress.Delivered.{sink_msg_handler-encode_upper}
use device_wiresink_go.Parser.Receive.{receive}
use device_wiresink_go.Driver.Listener.{Listener, any_eq, listener_tick}
use device_wiresink_go.Driver.Listener.Rounds.{answered, listener_tick-handled}
use device_wiresink_go.Service.{Service, Step, arrive, parse, Reaches, here, then_step}
use device_wiresink_go.Parser.Receive.Accepted.{data_frame, taken_in, receive-data_frame}
use device_wiresink_go.Service.Invariant.{writes, Step-writes, Healthy, Reaches-Healthy}
use device_wiresink_go.Config.Mapping.{lookup_device_name}
use device_wiresink_go.Wire.{with_crc, put_uint16_be}
use device_wiresink_go.Parser.Receive.Fields.{read_header}
use device_wiresink_go.Service.Ignored.{Reaches-unmapped, Reaches-unanswered}
use device_wiresink_go.Mqtt.Connection.{Options, Library, options, new_client, subscribe_sink_data}
use device_wiresink_go.Driver.Start.{broker_url, up_topic, client_id, initialize}
use device_wiresink_go.Config.Defaults.{
  Files, init_device_resources, load_entry, write_defaults, profile_of,
}
use device_wiresink_go.Config.Mapping.Rebuild.{Owns}
use device_wiresink_go.Driver.Start.{
  initial_mapping, initial, devices_yaml_path, profiles_dir, no_devices, start,
}
use device_wiresink_go.Service.Startup.{serving, mapped, start-Healthy}
use device_wiresink_go.Examples.{
  request, knows_id, knows_eid, table, sprint, id, sensor, dev, service,
}
use device_wiresink_go.Examples.DriverRuns.{sdk, as_text}

-- Messages whose text is the payload, with the text of the frame for its data.
abbrev pub codec : JsonCodec
codec = record {
  Json = Text;
  edgex_message = λ message. ok (text message);
  sink_payload = λ pb. ok (record { type = codes "sensor"; contents = pb });
  marshal = λ j. ok j;
}

abbrev two_bytes : Bytes
two_bytes = 1 ∷ 255 ∷ []

sink_msg_handler-encode_upper_example :
    sink_msg_handler codec (encode_upper two_bytes) [] ≡ two_bytes ∷ []
unfolding encode_upper
sink_msg_handler-encode_upper_example =
    sink_msg_handler-encode_upper codec (encode_upper two_bytes) (encode_upper two_bytes) two_bytes
      (text (encode_upper two_bytes)) (codes "sensor") [] (omega arith) (omega arith) refl
      (unfold payload_bytes in refl) (omega arith) refl

abbrev pub idle : Service
idle = record { queue = []; gateway = service; parser_blocked = false }

two_bytes_arrive : sink_msg_handler codec (encode_upper two_bytes) [] ≡ two_bytes ∷ []
unfolding encode_upper
two_bytes_arrive =
    sink_msg_handler-encode_upper codec (encode_upper two_bytes) (encode_upper two_bytes) two_bytes
      (text (encode_upper two_bytes)) (codes "sensor") [] (omega arith) (omega arith) refl
      (unfold payload_bytes in refl) (omega arith) refl

-- A message arrives, and its frame, which is too short, is taken from the queue.
taken : (g : Gateway) → Reaches codec sdk as_text (serving g) (serving g)
unfolding receive
taken g =
    then_step
      (then_step here (
        arrive (encode_upper two_bytes)
          (ap (λ (q : List Bytes). record (serving g) { queue = q }) (sym two_bytes_arrive))))
      (parse 5 0 two_bytes [] [] g refl refl refl refl)

idle-Healthy : Healthy idle
idle-Healthy = (omega arith, tt, refl, (tt, unfold lookup in refl), omega arith)

Reaches-Healthy_example : Healthy idle
Reaches-Healthy_example = Reaches-Healthy codec sdk as_text idle idle idle-Healthy (taken service)

-- A frame of data, and its handling.
abbrev measured : Bytes
measured = data_frame id ([]) 2

abbrev measuring : Service
measuring = record { queue = measured ∷ []; gateway = service; parser_blocked = false }

abbrev measured_gateway : Gateway
measured_gateway = taken_in id [] 5 2 dev service

measuring-Healthy : Healthy measuring
measuring-Healthy = (omega arith, tt, refl, (tt, unfold lookup in refl), omega arith)

abbrev measure : Step codec sdk as_text measuring (serving measured_gateway)
measure =
    parse 5 0 measured [] [] measured_gateway refl refl
      (receive-data_frame id [] [] refl (omega arith) tt 5 0 2 dev service (inr refl) (omega arith)
        knows_id)
      refl

-- The frame of the sensor leaves another device alone.
Step-writes_example :
    get_device_value (codes "other") (codes "eid") measured_gateway.values
    ≡ get_device_value (codes "other") (codes "eid") table
Step-writes_example =
    Step-writes codec sdk as_text measuring (serving measured_gateway) measure (codes "other")
      (codes "eid") measuring-Healthy
      (unfold writes read_header with_crc encode_upper lookup_device_name lookup text_eq in refl)

abbrev unused : Value → Gateway → Gateway
unused v g = g

abbrev never_equal : ℕ → ℕ → ℕ → Bool
never_equal bits x y = false

abbrev unseen : Listener
unseen = record { last = none; gateway = service }

abbrev handled : Listener
handled = record {
  last = some (string sensor);
  gateway = answered never_equal unused dev (codes "eid") (string sensor) service;
}

abbrev handled_twice : Listener
handled_twice = record {
  last = some (int 0);
  gateway = answered never_equal unused dev (codes "eid") (int 0) handled.gateway;
}

listener_tick-handled_example :
    (listener_tick never_equal unused dev (codes "eid") unseen ≡ done handled)
    × (listener_tick never_equal unused dev (codes "eid") handled ≡ done handled_twice)
    × (listener_tick never_equal unused dev (codes "eid") handled_twice ≡ done handled_twice)
listener_tick-handled_example =
    listener_tick-handled never_equal unused dev (codes "eid") unseen (string sensor)
      (unfold get_device_value lookup text_eq in refl) refl (unfold any_eq in refl)

abbrev copies : ℕ → Text → List Text
copies zero t = []
copies (suc n) t = t ∷ copies n t

-- No more AT commands fit.
abbrev full : Service
full = record idle { gateway = record service { at_commands = copies 100 (codes "AT") } }

Reaches-unanswered_example : receive 5 1700000000 request [] full.gateway ≡ blocked
Reaches-unanswered_example =
    Reaches-unanswered codec sdk as_text full full 5 1700000000 4 id [] [] dev sensor
      (omega arith, tt, refl, (tt, unfold lookup in refl), omega arith) here (inl (omega arith))
      refl refl (inl refl) (omega arith) knows_id knows_eid

-- A request is the next frame, and another frame waits behind it.
abbrev asked : Service
asked = record full { queue = request ∷ two_bytes ∷ [] }

-- A frame of a sensor that is not mapped.
abbrev strange_frame : Bytes
strange_frame = with_crc (1 ∷ 2 ∷ 3 ∷ 4 ∷ 5 ∷ 6 ∷ 0x04 ∷ 0x0E ∷ [])

Reaches-unmapped_example : receive 5 0 strange_frame [] service ≡ done service
Reaches-unmapped_example =
    Reaches-unmapped codec sdk as_text idle idle 5 0 strange_frame [] idle-Healthy (taken service) (
      unfold read_header with_crc put_uint16_be encode_upper lookup_device_name lookup text_eq in
      refl)

-- One device, whose profile has its EID for a default.
abbrev eid_files : Files
eid_files = record {
  read_file = λ path. ok path;
  profile_path = λ dir name. dir;
  devices_yaml = λ raw. ok (record { name = dev; profile_name = codes "sink" } ∷ []);
  profile_yaml = λ raw.
      ok (record { name = codes "eid"; value_type = codes "String"; default_value = sensor } ∷ []);
}

abbrev started : Gateway
started = record initial { values = table }

-- A library that connects and subscribes at once.
abbrev library : Library
library = record {
  Client = Options;
  new_client = λ o. o;
  connect = λ client seconds. (true, none);
  subscribe = λ client topic qos. none;
  is_connection_open = λ client. true;
}

abbrev client : Options
client = options broker_url (client_id (codes "gateway") 7)

-- A frame is taken from the queue before the sensors are mapped.
start-Healthy_example :
    ((library.connect client 10 ≡ (true, none)) × (library.subscribe client up_topic 0 ≡ none))
    × ((init_device_resources as_text eid_files profiles_dir devices_yaml_path no_devices).1 ≡ none)
    × (table
        ≡ (init_device_resources as_text eid_files profiles_dir devices_yaml_path
            no_devices).0.values)
    × ((s : Text) → (lookup_device_name s initial_mapping ≡ none) ⊎ (s ≡ codes "238A08262319"))
    × Healthy (mapped sprint (serving started))
    × ((s device : Text)
        → lookup_device_name s (mapped sprint (serving started)).gateway.mapping ≡ some device
        → Owns sprint table s device)
start-Healthy_example =
    start-Healthy as_text eid_files codec sdk sprint library (codes "gateway") 7 client started
      (serving started) (unfold initialize new_client in refl)
      (unfold start subscribe_sink_data init_device_resources load_entry write_defaults profile_of
          lookup insert text_eq in
        refl)
      (taken started)
