-- ===== src/Parser/Receive/Requested.antt =====
-- A sensor's request for the time, control type 7, on its way through `StartParser` of
-- internal/frameparser/parser.go to `SendFrame` of internal/config/tool.go.
use device_wiresink_go.Prelude.{
  ℕ, ◌/◌, ◌%◌, ◌^◌, ◌≤◌, ltb, ◌≡◌, ◌⊎◌, inl, inr, refl, ap, ◌∙◌, arith, true, false, Bool, ◌∷◌,
  ◌++◌, some, if◌then◌else◌, length, length-append, All, IsByte, Bytes, Text, codes, text_eq,
}
use device_wiresink_go.Prelude.Outcome.{
  Outcome, done, panicked, blocked, stuck, ◌>>=◌, Result, ok, err,
}
use device_wiresink_go.Crc.{crc16}
use device_wiresink_go.Wire.{with_crc, put_uint16_be, put_uint32_le, ctrl_byte}
use device_wiresink_go.Hex.{encode_upper}
use device_wiresink_go.Value.{string, int64}
use device_wiresink_go.State.{Frame, Gateway}
use device_wiresink_go.Config.Values.{get_device_value}
use device_wiresink_go.Config.Values.ReadBack.{get_device_value-set_device_value}
use device_wiresink_go.Config.Mapping.{lookup_device_name}
use device_wiresink_go.Config.Tool.{write_chan_capacity, rest_command_frame, send_at_command}
use device_wiresink_go.Config.Tool.Checksum.{crc16_same}
use device_wiresink_go.Parser.Params.{store_value}
use device_wiresink_go.Parser.Response.{
  device_or_empty, eid_of_device, lookup_response_handle, run_handler, handle_by_head,
  handle_frame_ctl,
}
use device_wiresink_go.Parser.Response.Synchronised.{sink_key, queued, reset_commands-known}
use device_wiresink_go.Parser.Receive.{
  on_data_received, add_report, receive_control, accept, receive,
}
use device_wiresink_go.Parser.Receive.Accepted.{receive-header}
use device_wiresink_go.Parser.Receive.Fields.{Header}
use device_wiresink_go.Parser.Receive.Framing.{header_of, read_header-with_crc}

-- The frame with the time: a control frame of the sink, control type 4 with the flag 1.
abbrev pub time_frame_of : ℕ → Bytes
time_frame_of seconds = with_crc (sink_key ++ 4 ∷ ctrl_byte 4 1 ∷ put_uint32_le (seconds % 2 ^ 32))

rest_command_frame-with_crc :
    (seconds : ℕ) → rest_command_frame sink_key 1 (seconds % 2 ^ 32) ≡ time_frame_of seconds
unfolding rest_command_frame with_crc
rest_command_frame-with_crc seconds =
    let buf : Bytes = sink_key ++ 4 ∷ ctrl_byte 4 1 ∷ put_uint32_le (seconds % 2 ^ 32) in
    ap (λ (crc : ℕ). buf ++ put_uint16_be crc) (crc16_same buf)

-- What `StartParser` does when the handler is back.
abbrev pub flushed : Text → Gateway → Gateway
flushed device after =
    if after.resources_flag
    then record (add_report device after.resources after) { resources_flag = false }
    else after

-- The end of the handling of a request.
abbrev pub answered : ℕ → ℕ → Text → Text → Gateway → Outcome Gateway
answered now seconds device eid g =
    if g.write_chan_closed
    then panicked
    else if ltb (length g.at_commands) write_chan_capacity
    then done (flushed device (queued eid (time_frame_of seconds) (on_data_received now device g)))
    else blocked

eid_of_device-touched :
    (now : ℕ) (device eid : Text) (g : Gateway)
    → get_device_value device (codes "eid") g.values ≡ some (string eid)
    → eid_of_device device (on_data_received now device g) ≡ ok eid
unfolding on_data_received store_value
eid_of_device-touched now device eid g known =
    let stamp : Text = codes "lastDataTimestamp" in
    let differ : text_eq stamp (codes "eid") ≡ false = unfold text_eq in refl in
    let stamped : get_device_value device (codes "eid") (on_data_received now device g).values
        ≡ some (string eid) =
      ground (
        arith,
        get_device_value-set_device_value device stamp device (codes "eid") (int64 now) g.values,
        differ,
        known,
      ) in
    rw (eid_of_device, stamped) refl

handle_by_head-request :
    (seconds : ℕ) (rest : Bytes) (frame : Frame) (eid : Text) (g : Gateway)
    → eid_of_device (device_or_empty frame.sensor_id g.mapping) g ≡ ok eid
    → handle_by_head seconds (0x0E ∷ rest) frame g ≡ send_at_command eid (time_frame_of seconds) g
unfolding handle_by_head run_handler lookup_response_handle
handle_by_head-request seconds rest frame eid g known =
    ap (λ (o : Outcome (Result Gateway)). o >>= λ r. done (elim r [ ok after ↦ after | err e ↦ g ]))
      (reset_commands-known seconds frame eid g known)
    ∙ sent (send_at_command eid (rest_command_frame sink_key 1 (seconds % 2 ^ 32)) g)
    ∙ ap (λ (payload : Bytes). send_at_command eid payload g) (rest_command_frame-with_crc seconds)
  where
    sent :
        (o : Outcome Gateway)
        → (o >>= (λ s. done (ok s)) >>= λ (r : Result Gateway).
            done (elim r [ ok after ↦ after | err e ↦ g ]))
          ≡ o
    sent (done after) = refl
    sent panicked = refl
    sent blocked = refl
    sent stuck = refl

send_at_command-flushed :
    (eid : Text) (payload : Bytes) (device : Text) (g : Gateway)
    → (send_at_command eid payload g >>= λ after. done (flushed device after)) ≡ (
        if g.write_chan_closed
        then panicked
        else if ltb (length g.at_commands) write_chan_capacity
        then done (flushed device (queued eid payload g))
        else blocked)
unfolding send_at_command
send_at_command-flushed eid payload device g =
    by_guards g.write_chan_closed (ltb (length g.at_commands) write_chan_capacity)
      (queued eid payload g)
  where
    by_guards :
        (closed room : Bool) (sent : Gateway)
        → ((if closed then panicked else if room then done sent else blocked) >>= λ after.
            done (flushed device after))
          ≡ (if closed then panicked else if room then done (flushed device sent) else blocked)
    by_guards true room sent = refl
    by_guards false true sent = refl
    by_guards false false sent = refl

receive_control-request :
    (now seconds : ℕ) (device eid : Text) (frame : Frame) (rest : Bytes) (g : Gateway)
    → frame.payload ≡ 0x0E ∷ rest
    → lookup_device_name frame.sensor_id g.mapping ≡ some device
    → get_device_value device (codes "eid") g.values ≡ some (string eid)
    → receive_control seconds device frame (on_data_received now device g)
      ≡ answered now seconds device eid g
unfolding receive_control handle_frame_ctl on_data_received store_value
receive_control-request now seconds device eid frame rest g body mapped known =
    let touched : Gateway = on_data_received now device g in
    let owner : device_or_empty frame.sensor_id g.mapping ≡ device =
      rw (device_or_empty, mapped) refl in
    ap
      (λ (payload : Bytes).
        handle_by_head seconds payload frame touched >>= λ after. done (flushed device after))
      body
    ∙ ap (λ (o : Outcome Gateway). o >>= λ after. done (flushed device after))
        (handle_by_head-request seconds rest frame eid touched (
          ap (λ (name : Text). eid_of_device name touched) owner
          ∙ eid_of_device-touched now device eid g known))
    ∙ send_at_command-flushed eid (time_frame_of seconds) device touched

pub accept-control :
    (seconds : ℕ) (frame spare : Bytes) (sensor device : Text) (h : Header) (g : Gateway)
    → h.frag_ind ≡ 0
    → (h.packet_type ≡ 4) ⊎ (h.packet_type ≡ 5)
    → accept seconds frame spare sensor device h g
      ≡ receive_control seconds device
          (record {
            sensor_id = sensor;
            data_len = h.data_count;
            frag_ind = h.frag_ind;
            packet_type = h.packet_type;
            payload = h.body;
            check = h.recv_crc;
          })
          g
unfolding accept
accept-control seconds frame spare sensor device h g whole (inl four) = rw (whole, four) refl
accept-control seconds frame spare sensor device h g whole (inr five) = rw (whole, five) refl

pub length-request :
    (sensor : Bytes) (head ctrl : ℕ) (rest : Bytes)
    → length sensor ≡ 6
    → 9 ≤ length (with_crc (sensor ++ head ∷ ctrl ∷ rest))
unfolding with_crc put_uint16_be
length-request sensor head ctrl rest six =
    let buf : Bytes = sensor ++ head ∷ ctrl ∷ rest in
    omega (
      arith,
      length-append buf (put_uint16_be (crc16 buf)),
      length-append sensor (head ∷ ctrl ∷ rest),
    )

-- A whole control frame, packet type 4 or 5, of control type 7 with the flag 0, closed by
-- `with_crc`, of a sensor of six bytes that is mapped to a device with a text as its EID. Where
-- `WriteChan` is closed the parser panics, and where it is open and holds 100 commands the parser
-- waits for ever. Otherwise it sets the time stamp of the device, puts the AT command for the EID
-- with a frame of the time, closed by `with_crc`, behind the others, and reports what is left to
-- report.
pub receive-request :
    (now seconds head : ℕ) (sensor rest spare : Bytes) (device eid : Text) (g : Gateway)
    → length sensor ≡ 6
    → head / 2 ^ 3 % 2 ≡ 0
    → (head % 2 ^ 3 ≡ 4) ⊎ (head % 2 ^ 3 ≡ 5)
    → All IsByte (sensor ++ head ∷ 0x0E ∷ rest)
    → lookup_device_name (encode_upper sensor) g.mapping ≡ some device
    → get_device_value device (codes "eid") g.values ≡ some (string eid)
    → receive now seconds (with_crc (sensor ++ head ∷ 0x0E ∷ rest)) spare g
      ≡ answered now seconds device eid g
receive-request now seconds head sensor rest spare device eid g six whole control all mapped known =
    let frame : Bytes = with_crc (sensor ++ head ∷ 0x0E ∷ rest) in
    let h : Header = header_of sensor head (0x0E ∷ rest) in
    let touched : Gateway = on_data_received now device g in
    receive-header now seconds frame spare device h g
      (read_header-with_crc sensor head (0x0E ∷ rest) six all)
      (length-request sensor head 0x0E rest six) mapped refl
    ∙ accept-control seconds frame spare h.sensor device h touched whole control
    ∙ receive_control-request now seconds device eid _ rest g refl mapped known
