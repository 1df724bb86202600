-- ===== src/Examples.antt =====
-- The theorems at concrete inputs, and runs of the code.
mod DeliveryRuns
mod DriverRuns
mod FrameRuns
mod ServiceRuns
use device_wiresink_go.Prelude.{
  ◌≤◌, ℕ, ◌<◌, ◌&&◌, ◌≡◌, ◌≢◌, ◌↔◌, ◌⊎◌, inl, inr, refl, sym, arith, false, [], ◌∷◌, ◌++◌, none,
  some, if◌then◌else◌, length, Bytes, Text, Assoc, codes, text_eq, lookup, insert, delete,
}
use device_wiresink_go.Prelude.Outcome.{done, stuck, ok, err, invalid_request_set_flag}
use device_wiresink_go.Crc.{crc16}
use device_wiresink_go.Crc.Bitwise.{crc_bitwise}
use device_wiresink_go.Crc.Table.{crc16-crc_bitwise}
use device_wiresink_go.Crc.Detect.{crc16_burst}
use device_wiresink_go.Wire.{ctrl_byte, put_uint16_le, with_crc, put_uint32_le}
use device_wiresink_go.Value.{Value, uint16, int64, string}
use device_wiresink_go.State.{Gateway, Frame}
use device_wiresink_go.Config.Values.{
  Values, get_device_value, set_device_value, delete_device_values,
}
use device_wiresink_go.Config.Values.ReadBack.{
  get_device_value-set_device_value, get_device_value-delete_device_values,
}
use device_wiresink_go.Config.Mapping.{
  Mapping, lookup_device_name, eid_of, update_sensor_mapping, delete_sensor_id_mappings_by_device,
}
use device_wiresink_go.Config.Mapping.Rebuild.{
  Owns, update_sensor_mapping_sound, update_sensor_mapping_complete,
  lookup-delete_sensor_id_mappings_by_device,
}
use device_wiresink_go.Config.Decode.{parse_value}
use device_wiresink_go.Config.Params.{lookup_param_info}
use device_wiresink_go.Config.Params.Row.{ParamInfo, parse_uint16}
use device_wiresink_go.Config.Params.Lengths.{lookup_param_info-byte_len}
use device_wiresink_go.Config.Topo.{parse_topo}
use device_wiresink_go.Config.Topo.RoundTrip.{RawNode, joined, decoded, parse_topo-joined}
use device_wiresink_go.Mqtt.{decode_hex_flexible, send_frame}
use device_wiresink_go.Mqtt.Egress.{
  publication, decode_hex_flexible-encode_upper, send_frame-publication,
}
use device_wiresink_go.Hex.{encode_upper}
use device_wiresink_go.Control.{
  build_parameter_query_frame, build_alarm_parameter_query_frame, build_monitoring_data_query_frame,
  build_monitoring_data_query_frame1, build_general_param_query_frame, build_reset_request,
  build_time_param_frame, build_sensor_id_frame,
}
use device_wiresink_go.Config.ParamTable.{get_entry_copy, Table}
use device_wiresink_go.Control.General.{build_general_param_frame}
use device_wiresink_go.Control.Announced.{build_general_param_frame-data_count}
use device_wiresink_go.Control.Requests.{
  sensor_id_frame, AsControl, query_frames, general_param_query_frame, time_param_frame,
}
use device_wiresink_go.Parser.Receive.{receive, on_data_received}
use device_wiresink_go.Parser.Receive.Fields.{read_header}
use device_wiresink_go.Parser.Receive.Framing.{header_of, read_header-with_crc}
use device_wiresink_go.Parser.Receive.Reject.{SameButPublished, receive_rejected}
use device_wiresink_go.Parser.Sharding.{process_frame}
use device_wiresink_go.Parser.Sharding.Stalled.{Collects, process_frame_stalls}
use device_wiresink_go.Parser.Response.Loop.{common_para_response}
use device_wiresink_go.Parser.Response.Runs.{common_para_response-ne-stuck}

abbrev id : Bytes
id = 0x23 ∷ 0x8A ∷ 0x08 ∷ 0x41 ∷ 0xD8 ∷ 0x28 ∷ []

abbrev sensor : Text
sensor = codes "238A0841D828"

abbrev dev : Text
dev = codes "sink"

abbrev resources : Assoc Value
resources = (codes "eid", string sensor) ∷ []

abbrev table : Values
table = (dev, resources) ∷ []

abbrev mapping : Mapping
mapping = (sensor, dev) ∷ []

-- A service with one device.
abbrev service : Gateway
service = record {
  values = table;
  mapping = mapping;
  topo_list = [];
  resources = [];
  resources_flag = false;
  caches = [];
  sdus = [];
  at_commands = [];
  write_chan_closed = false;
  published = [];
  reports = [];
}

-- The register of CRC-16/MODBUS behind 01 03 00 00 00 01.
crc16_modbus : crc16 (1 ∷ 3 ∷ 0 ∷ 0 ∷ 0 ∷ 1 ∷ []) ≡ 0x0A84
unfolding crc16
crc16_modbus = refl

crc16-crc_bitwise_example : crc16 (1 ∷ 3 ∷ 0 ∷ []) ≡ crc_bitwise 0xFFFF (1 ∷ 3 ∷ 0 ∷ [])
crc16-crc_bitwise_example = crc16-crc_bitwise (1 ∷ 3 ∷ 0 ∷ []) (omega arith)

abbrev three : ℕ
three = 3

abbrev four : ℕ
four = 4

crc16_burst_example : (three ≡ 3) × (four ≡ 4)
crc16_burst_example =
    crc16_burst (1 ∷ 2 ∷ []) (5 ∷ []) three four 3 4 (omega arith) (omega arith) refl

read_header-with_crc_example :
    read_header (with_crc (id ++ 0x1A ∷ 7 ∷ 9 ∷ [])) ≡ header_of id 0x1A (7 ∷ 9 ∷ [])
read_header-with_crc_example = read_header-with_crc id 0x1A (7 ∷ 9 ∷ []) refl (omega arith)

-- The text of a string is the string; another value has no text here.
abbrev sprint : Value → Text
sprint (string s) = s
sprint _ = []

owner : (other : Text) → Owns sprint table sensor other → other ≡ dev
owner other (found, member, e) = elim member [ inl (p, q) ↦ sym p | inr nothing ↦ absurd nothing ]

sink-Owns : Owns sprint table sensor dev
sink-Owns = (resources, inl (refl, refl), unfold eid_of lookup text_eq in refl)

update_sensor_mapping_complete_example :
    lookup_device_name sensor (update_sensor_mapping sprint table) ≡ some dev
update_sensor_mapping_complete_example =
    update_sensor_mapping_complete sprint sensor dev table sink-Owns owner

abbrev battery : ParamInfo
battery = record {
  name = codes "BatteryRemaining";
  unit = "%";
  byte_len = some 2;
  data_type = "uint16";
  parse = parse_uint16;
}

lookup_param_info-byte_len_example :
    ((v : Value) × (parse_value parse_uint16 id ≡ ok v)) ↔ (length id ≡ 2)
lookup_param_info-byte_len_example =
    lookup_param_info-byte_len 29 2 battery id (unfold lookup_param_info in refl) refl

-- A node in the format that `parseTopo` reads: an access node that is online.
abbrev node : RawNode
node = record {
  e0 = 1;
  e1 = 2;
  e2 = 3;
  e3 = 4;
  e4 = 5;
  e5 = 6;
  state = 1;
  kind = 4;
  p0 = 7;
  p1 = 8;
  p2 = 9;
  p3 = 10;
  p4 = 11;
  p5 = 12;
}

parse_topo-joined_example :
    parse_topo (joined node (node ∷ [])) ≡ ok (decoded node ∷ decoded node ∷ [])
parse_topo-joined_example = parse_topo-joined node (node ∷ [])

query_frames_example :
    AsControl id 15 (2 ∷ []) (build_parameter_query_frame id)
    × AsControl id 15 (6 ∷ []) (build_alarm_parameter_query_frame id)
    × AsControl id 15 (4 ∷ []) (build_monitoring_data_query_frame id)
    × AsControl id 15 (4 ∷ []) (build_monitoring_data_query_frame1 id)
    × AsControl id 0 (12 ∷ []) (build_reset_request id)
query_frames_example = query_frames id refl (omega arith)

time_param_frame_example :
    ((1 < 2)
      × AsControl id 0 (9 ∷ put_uint32_le 1700000000) (build_time_param_frame id 1 1700000000))
    ⊎ ((1 < 1) × (build_time_param_frame id 1 1700000000 ≡ err (invalid_request_set_flag 1)))
time_param_frame_example = time_param_frame id refl (omega arith) 1 1700000000

-- A frame of data from the device whose last two bytes are not its checksum.
abbrev bad_frame : Bytes
bad_frame = id ++ 0x10 ∷ 0 ∷ 0 ∷ []

receive_rejected_example :
    (after : Gateway) × (receive 5 0 bad_frame [] service ≡ done after)
    × SameButPublished (on_data_received 5 dev service) after
    × ((other resource : Text)
        → get_device_value other resource after.values ≡ (
            if text_eq dev other && text_eq (codes "lastDataTimestamp") resource
            then some (int64 5)
            else get_device_value other resource service.values))
unfolding lookup text_eq encode_upper
receive_rejected_example =
    receive_rejected 5 0 bad_frame [] dev service (omega arith)
      (unfold lookup_device_name read_header in refl) (unfold crc16 read_header in λ e. cc)

abbrev response : Frame
response = record {
  sensor_id = sensor;
  data_len = 15;
  frag_ind = 0;
  packet_type = 5;
  payload = [];
  check = 0;
}

-- The last of two fragments in its only form: SSEQ 1, PSEQ 127, two bytes.
abbrev last_fragment : Frame
last_fragment = record {
  sensor_id = sensor;
  data_len = 1;
  frag_ind = 1;
  packet_type = 0;
  payload = 0x04 ∷ 0xFE ∷ 2 ∷ 0 ∷ 7 ∷ 9 ∷ [];
  check = 0;
}

process_frame_stalls_example : Collects service (process_frame last_fragment service)
process_frame_stalls_example = process_frame_stalls last_fragment service (λ e. cc) (omega arith) tt

abbrev one_entry : Table
one_entry = (codes "interval", record { head16 = 0x88; length = 2; contents = [] }) ∷ []

build_general_param_frame-data_count_example :
    (0 < 1)
    × (1 ≤ 16)
    × ((read_header (with_crc (id ++ 0x14 ∷ 7 ∷ 0x88 ∷ 0 ∷ 1 ∷ 2 ∷ []))).data_count ≡ 1)
unfolding lookup text_eq get_entry_copy ctrl_byte put_uint16_le
build_general_param_frame-data_count_example =
    build_general_param_frame-data_count id (codes "interval" ∷ [])
      ((codes "interval", 1 ∷ 2 ∷ []) ∷ []) one_entry
      (with_crc (id ++ 0x14 ∷ 7 ∷ 0x88 ∷ 0 ∷ 1 ∷ 2 ∷ [])) refl
      (unfold build_general_param_frame in refl)

pub knows_id : lookup_device_name (encode_upper id) mapping ≡ some dev
unfolding lookup_device_name lookup text_eq encode_upper
knows_id = refl

-- A request of the sensor for the time.
abbrev pub request : Bytes
request = with_crc (id ++ 0x04 ∷ 0x0E ∷ [])

pub knows_eid : get_device_value dev (codes "eid") table ≡ some (string sensor)
unfolding get_device_value lookup text_eq
knows_eid = refl
