-- ===== src/Parser/Receive.antt =====
-- The loop body of `StartParser` of internal/frameparser/parser.go: one frame of raw bytes.
pub mod Accepted
pub mod Ending
pub mod Entries
pub mod Polled
pub mod Requested
pub mod Responded
pub mod Fields
pub mod Overlong
pub mod Reject
pub mod Updated
pub mod Framing
use device_wiresink_go.Prelude.{
  ℕ, zero, suc, ◌+◌, ◌-◌, ◌/◌, ◌%◌, ◌^◌, ◌==◌, ltb, Bool, true, false, List, [], ◌∷◌, ◌++◌, Option,
  none, some, if◌then◌else◌, length, take, drop, get_or, Bytes, Text, Assoc, codes,
}
use device_wiresink_go.Prelude.Outcome.{Outcome, done, panicked, stuck, ◌>>=◌}
use device_wiresink_go.Crc.{crc16}
use device_wiresink_go.Wire.{uint16_le}
use device_wiresink_go.Value.{Value, int64}
use device_wiresink_go.Config.Mapping.{lookup_device_name}
use device_wiresink_go.State.{Frame, Gateway, Report}
use device_wiresink_go.Control.{send_data_status}
use device_wiresink_go.Parser.Slices.{slice, uint16_at, data_len_at}
use device_wiresink_go.Parser.Params.{decode_param, store_param, store_value}
use device_wiresink_go.Parser.Response.{handle_frame_ctl}
use device_wiresink_go.Parser.Sharding.{process_frame}
use Fields.{Header, read_header}

-- `onDataReceived`; `now` is the clock in nanoseconds.
unfoldable pub on_data_received : ℕ → Text → Gateway → Gateway
on_data_received now device g = store_value device (codes "lastDataTimestamp") (int64 now) g

-- The answer to a frame whose checksum is wrong: only whole frames of data get one.
unfoldable pub reject : Text → Header → Gateway → Gateway
reject sensor h g =
    if h.frag_ind == 0
    then (if h.packet_type == 0
        then send_data_status sensor 0b001 0x00 h.data_count g
        else if h.packet_type == 2
        then send_data_status sensor 0b011 0x00 h.data_count g
        else g)
    else g

-- The loop over the parameters of a frame of data, with the parameters left to read. It stops
-- where the next parameter would begin past the end.
unfoldable pub params_loop :
    ℕ → Bytes → Bytes → ℕ → Text → Assoc Value → Gateway → Outcome (Assoc Value × Gateway)
params_loop zero frame spare idx device found g = done (found, g)
params_loop (suc left) frame spare idx device found g =
    if ltb (length frame) (idx + 2 + 2)
    then done (found, g)
    else uint16_at uint16_le frame spare idx >>= λ head16.
        data_len_at uint16_le frame spare (head16 % 2 ^ 2) (idx + 2) >>= λ (n, at).
        slice frame spare at (at + n) >>= λ bytes.
        let (found', stored) = store_param device (decode_param (head16 / 2 ^ 2) bytes) found g in
        params_loop left frame spare (at + n) device found' stored

abbrev pub source_name : Text
source_name = codes "AsyncReporting"

abbrev pub add_report : Text → Assoc Value → Gateway → Gateway
add_report device values g = record g {
  reports = g.reports ++ record { device = device; source = source_name; values = values } ∷ [];
}

-- The parameters of a frame of data, and the report of what was found.
unfoldable pub receive_params : Bytes → Bytes → ℕ → Text → Gateway → Outcome Gateway
unfolding params_loop
receive_params frame spare data_count device g =
    params_loop data_count frame spare 7 device [] g >>= λ (found, after). elim found [
      | [] ↦ done after
      | value ∷ rest ↦ done (add_report device (value ∷ rest) after)
    ]

-- A control frame: the answer of a handler, and the report of the parameters that it found.
unfoldable pub receive_control : ℕ → Text → Frame → Gateway → Outcome Gateway
receive_control seconds device frame g = handle_frame_ctl seconds frame g >>= λ after. done (
    if after.resources_flag
    then record (add_report device after.resources after) { resources_flag = false }
    else after)

-- A frame whose checksum is right.
unfoldable pub accept : ℕ → Bytes → Bytes → Text → Text → Header → Gateway → Outcome Gateway
unfolding receive_params receive_control
accept seconds frame spare sensor device h g =
    let frame_ctl : Frame = record {
      sensor_id = sensor;
      data_len = h.data_count;
      frag_ind = h.frag_ind;
      packet_type = h.packet_type;
      payload = h.body;
      check = h.recv_crc;
    } in
    if h.frag_ind == 0
    then (if h.packet_type == 0
        then receive_params frame spare h.data_count device
            (send_data_status sensor 0b001 0xFF h.data_count g)
        else if h.packet_type == 2
        then receive_params frame spare h.data_count device
            (send_data_status sensor 0b011 0xFF h.data_count g)
        else if h.packet_type == 4
        then receive_control seconds device frame_ctl g
        else if h.packet_type == 5
        then receive_control seconds device frame_ctl g
        else done g)
    else process_frame frame_ctl g >>= λ after. receive_params frame spare h.data_count device after

-- A frame of a known sensor: the time of the device is set before the checksum is looked at.
unfoldable pub receive_known :
    ℕ → ℕ → Bytes → Bytes → Text → Text → Header → Gateway → Outcome Gateway
unfolding on_data_received reject accept
receive_known now seconds frame spare sensor device h g =
    let touched = on_data_received now device g in
    if crc16 h.checked == h.recv_crc
    then accept seconds frame spare sensor device h touched
    else done (reject sensor h touched)

-- One frame. `now` and `seconds` are the readings of the clock, `spare` what the array of the frame
-- holds behind it.
unfoldable pub receive : ℕ → ℕ → Bytes → Bytes → Gateway → Outcome Gateway
unfolding receive_known read_header
receive now seconds frame spare g =
    let h = read_header frame in
    if ltb (length frame) 9 then done g else elim (lookup_device_name h.sensor g.mapping) [
      | none ↦ done g
      | some device ↦ receive_known now seconds frame spare h.sensor device h g
    ]
