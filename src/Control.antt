-- ===== src/Control.antt =====
-- The control frames of internal/frameparser: *_ctl.go and `SendDataStatus` of parser.go.
-- A sensor ID, `[6]byte`, is a list of six bytes.
pub mod Entries
pub mod Announced
pub mod General
pub mod Requests
use device_wiresink_go.Prelude.{
  ℕ, ◌*◌, ◌/◌, ◌%◌, ◌^◌, ◌==◌, ◌||◌, List, [], ◌∷◌, ◌++◌, if◌then◌else◌, length, Bytes, Text,
  bit_and, bit_or,
}
use device_wiresink_go.Prelude.Outcome.{
  Error, invalid_request_set_flag, wrong_eid_length, Result, ok, err,
}
use device_wiresink_go.Hex.{decode_string}
use device_wiresink_go.State.{Gateway}
use device_wiresink_go.Mqtt.{send_frame, sink_eid}
use device_wiresink_go.Wire.{put_uint16_le, put_uint32_le, head_byte, ctrl_byte, with_crc}

abbrev pub packet_type_control : ℕ
packet_type_control = 0x04

abbrev pub ctrl_type_time_param : ℕ
ctrl_type_time_param = 0x04

abbrev pub ctrl_type_sensor_id : ℕ
ctrl_type_sensor_id = 0x05

-- usual_param_ctl.go: all general parameters.
unfoldable pub build_parameter_query_frame : Bytes → Result Bytes
build_parameter_query_frame sensor =
    ok (with_crc (sensor ++ head_byte 0x0F 0 0x04 ∷ ctrl_byte 0x01 0 ∷ []))

-- alarm_parameter_ctl.go.
unfoldable pub build_alarm_parameter_query_frame : Bytes → Result Bytes
build_alarm_parameter_query_frame sensor =
    ok (with_crc (sensor ++ head_byte 0x0F 0 0x04 ∷ ctrl_byte 0x03 0 ∷ []))

-- monitoring_data_ctl.go.
unfoldable pub build_monitoring_data_query_frame : Bytes → Result Bytes
build_monitoring_data_query_frame sensor =
    ok (with_crc (sensor ++ head_byte 0x0F 0 0x04 ∷ ctrl_byte 0x02 0 ∷ []))

-- topo_data_ctl.go: the same frame, built once more.
unfoldable pub build_monitoring_data_query_frame1 : Bytes → Result Bytes
build_monitoring_data_query_frame1 sensor =
    ok (with_crc (sensor ++ head_byte 0x0F 0 0x04 ∷ ctrl_byte 0x02 0 ∷ []))

-- topo_data_ctl.go: the parameter type is not used.
unfoldable pub build_general_param_query_frame : Bytes → ℕ → Result Bytes
build_general_param_query_frame sensor param_type14 =
    ok (with_crc (sensor ++ head_byte 0x01 0 0x04 ∷ ctrl_byte 0x02 0 ∷ 0x20 ∷ 0x00 ∷ []))

-- reset_ctl.go.
unfoldable pub build_reset_request : Bytes → Result Bytes
build_reset_request sensor = ok (with_crc (sensor ++ head_byte 0 0 0x04 ∷ ctrl_byte 0x06 0 ∷ []))

-- time_ctl.go; the timestamp is a uint32.
abbrev time_frame : Bytes → ℕ → ℕ → Bytes
time_frame sensor request_set_flag timestamp = with_crc (
    sensor
    ++ bit_and packet_type_control 0x07
      ∷ ctrl_byte ctrl_type_time_param request_set_flag
      ∷ put_uint32_le timestamp)

unfoldable pub build_time_param_frame : Bytes → ℕ → ℕ → Result Bytes
build_time_param_frame sensor request_set_flag timestamp =
    if request_set_flag == 0 || request_set_flag == 1
    then ok (time_frame sensor request_set_flag timestamp)
    else err (invalid_request_set_flag request_set_flag)

-- time_ctl.go: builds the frame and sends it.
unfoldable pub rest_command_build_frame : Text → Bytes → ℕ → ℕ → Gateway → Result Gateway
rest_command_build_frame eid sensor request_set_flag timestamp g =
    if request_set_flag == 0 || request_set_flag == 1
    then ok (send_frame eid (time_frame sensor request_set_flag timestamp) g)
    else err (invalid_request_set_flag request_set_flag)

-- sensorid_ctl.go.
unfoldable pub build_sensor_id_frame : Bytes → ℕ → Bytes → Result Bytes
build_sensor_id_frame sensor request_set_flag new_id =
    let base = bit_and ctrl_type_sensor_id 0x7F * 2 in
    let ctrl = if request_set_flag == 1 then bit_or base 0x01 else base in
    if request_set_flag == 0 || request_set_flag == 1
    then ok (with_crc (sensor ++ bit_and packet_type_control 0x07 ∷ ctrl ∷ new_id))
    else err (invalid_request_set_flag request_set_flag)

-- topo_data_ctl.go: one parameter with its head and, by the length flag, its length. The type code
-- is a uint16, and `len(data)` is cut to the bytes that are written.
unfoldable pub encode_param_entry : ℕ → ℕ → Bytes → Bytes
encode_param_entry param_type14 len_flag contents =
    let head16 = bit_or (bit_and param_type14 0x3FFF * 2 ^ 2 % 2 ^ 16) (bit_and len_flag 0x03) in
    let n = length contents in
    put_uint16_le head16
    ++ (if bit_and len_flag 0x03 == 0
        then (if n == 4 then contents else 0x00 ∷ 0x00 ∷ 0x00 ∷ 0x00 ∷ [])
        else if bit_and len_flag 0x03 == 1
        then n % 2 ^ 8 ∷ contents
        else if bit_and len_flag 0x03 == 2
        then put_uint16_le (n % 2 ^ 16) ++ contents
        else n / 2 ^ 16 % 2 ^ 8 ∷ n / 2 ^ 8 % 2 ^ 8 ∷ n % 2 ^ 8 ∷ contents)

-- `(dataLen<<4)&0xF0 | (fragInd<<3)&0x08 | (packetType & 0x07)` on bytes.
unfoldable pub status_head : ℕ → ℕ → ℕ
status_head data_len packet_type =
    bit_or (bit_and (data_len * 2 ^ 4 % 2 ^ 8) 0xF0) (bit_and packet_type 0x07)

-- parser.go: the answer to a frame of data. An error is not looked at by any caller.
unfoldable pub status_frame : Bytes → ℕ → ℕ → ℕ → Bytes
status_frame sensor packet_type data_status data_len =
    with_crc (sensor ++ status_head data_len packet_type ∷ data_status ∷ [])

unfoldable pub send_data_status : Text → ℕ → ℕ → ℕ → Gateway → Gateway
unfolding status_frame
send_data_status sensor_key packet_type data_status data_len g = elim (decode_string sink_eid) [
  | err e ↦ g
  | ok key ↦
      if length key == 6
      then send_frame sensor_key (status_frame key packet_type data_status data_len) g
      else g
]
