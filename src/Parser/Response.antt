-- ===== src/Parser/Response.antt =====
-- `handleFrameCtl` of internal/frameparser/parser_response.go and the handlers of
-- internal/config/param_table_parser_response.go.
pub mod Loop
pub mod Synchronised
pub mod Runs
use device_wiresink_go.Prelude.{
  ℕ, zero, suc, ◌*◌, ◌/◌, ◌%◌, ◌^◌, ◌==◌, ◌||◌, Bool, true, false, List, [], ◌∷◌, ◌++◌, Option,
  none, some, if◌then◌else◌, length, drop, Bytes, Text, codes, bit_and,
}
use device_wiresink_go.Prelude.Outcome.{
  Outcome, done, panicked, stuck, ◌>>=◌, Error, no_eid, eid_not_string, wrong_eid_length,
  invalid_request_set_flag, Result, ok, err,
}
use device_wiresink_go.Hex.{decode_string, encode_upper, itoa}
use device_wiresink_go.Wire.{put_uint32_le, ctrl_byte, with_crc}
use device_wiresink_go.Value.{Value, string}
use device_wiresink_go.Config.Mapping.{Mapping, lookup_device_name}
use device_wiresink_go.Config.Values.{get_device_value}
use device_wiresink_go.Config.Tool.{rest_command_build_frame}
use device_wiresink_go.State.{Frame, Gateway}
use device_wiresink_go.Mqtt.{sink_eid}
use device_wiresink_go.Parser.Slices.{byte_at, slice}
use device_wiresink_go.Parser.Params.{store_value}
use Loop.{common_para_response}

-- The zero value of the name where the sensor is not known.
abbrev pub device_or_empty : Text → Mapping → Text
device_or_empty sensor mapping = elim (lookup_device_name sensor mapping) [
  | none ↦ []
  | some device ↦ device
]

-- Four bytes are read for the log; the first one is stored.
unfoldable pub timestamp_response : Bytes → Frame → Gateway → Outcome Gateway
timestamp_response bytes frame g = do
  first ← byte_at bytes 0
  seconds ← slice bytes [] 0 4
  done (
      store_value (device_or_empty frame.sensor_id g.mapping) (codes "timestamp")
        (string (itoa first)) g)

unfoldable pub reset_response : Bytes → Frame → Gateway → Outcome Gateway
reset_response bytes frame g = do
  first ← byte_at bytes 0
  done (
      store_value (device_or_empty frame.sensor_id g.mapping) (codes "reset_ctl")
        (string (itoa first)) g)

abbrev pub eid_of_device : Text → Gateway → Result Text
eid_of_device device g = elim (get_device_value device (codes "eid") g.values) [
  | none ↦ err (no_eid device)
  | some value ↦ elim value [ string eid ↦ ok eid | _ ↦ err (eid_not_string device) ]
]

-- `resetCommands`; `seconds` is the clock. The error of the call that sends is not looked at.
unfoldable pub reset_commands : ℕ → Frame → Gateway → Outcome (Result Gateway)
reset_commands seconds frame g =
    elim (eid_of_device (device_or_empty frame.sensor_id g.mapping) g) [
      | err e ↦ done (err e)
      | ok eid ↦ elim (decode_string sink_eid) [
        | err e ↦ done (err e)
        | ok key ↦
            if length key == 6
            then (rest_command_build_frame eid key 1 (seconds % 2 ^ 32) g >>= λ r.
                done (elim r [ err e ↦ ok g | ok sent ↦ ok sent ]))
            else done (err (wrong_eid_length (length key)))
      ]
    ]

-- The handlers that `ResponseMap` names.
pub data Handler : Type 0 where
  common timestamp reset commands : Handler

-- `ResponseMap`, by control type and request-set flag.
unfoldable pub response_map : ℕ → Bool → Option Handler
response_map ctrl_type flag =
    if ctrl_type == 0x02
    then some common
    else if ctrl_type == 0x03
    then (if flag then some timestamp else none)
    else if ctrl_type == 0x04
    then some timestamp
    else if ctrl_type == 0x06
    then some reset
    else if ctrl_type == 0x07
    then (if flag then none else some commands)
    else none

unfoldable pub lookup_response_handle : ℕ → Option Handler
unfolding response_map
lookup_response_handle head = response_map (head / 2) (head % 2 == 1)

-- The error of a handler is logged, and what it changed stays.
unfoldable pub run_handler : ℕ → Handler → Bytes → Frame → Gateway → Outcome Gateway
unfolding timestamp_response reset_response reset_commands
run_handler seconds common bytes frame g = common_para_response bytes frame g
run_handler seconds timestamp bytes frame g = timestamp_response bytes frame g
run_handler seconds reset bytes frame g = reset_response bytes frame g
run_handler seconds commands bytes frame g =
    reset_commands seconds frame g >>= λ r. done (elim r [ ok after ↦ after | err e ↦ g ])

unfoldable pub handle_by_head : ℕ → Bytes → Frame → Gateway → Outcome Gateway
unfolding lookup_response_handle run_handler
handle_by_head seconds [] frame g = done g
handle_by_head seconds (head ∷ bytes) frame g = elim (lookup_response_handle head) [
  | none ↦ done g
  | some handler ↦ run_handler seconds handler bytes frame g
]

unfoldable pub handle_frame_ctl : ℕ → Frame → Gateway → Outcome Gateway
unfolding handle_by_head
handle_frame_ctl seconds frame g = handle_by_head seconds frame.payload frame g
