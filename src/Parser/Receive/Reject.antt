-- ===== src/Parser/Receive/Reject.antt =====
-- What the parser of internal/frameparser/parser.go does with a frame whose checksum is wrong.
use device_wiresink_go.Prelude.{
  ℕ, ◌≤◌, ◌==◌, ◌&&◌, ◌≡◌, ◌≢◌, refl, ap, ◌∙◌, arith, some, Bool, true, false, if◌then◌else◌,
  length, Bytes, Text, codes, text_eq, ==_iff,
}
use device_wiresink_go.Prelude.Outcome.{done, Result, ok, err}
use device_wiresink_go.Crc.{crc16}
use device_wiresink_go.Value.{int64}
use device_wiresink_go.Config.Values.{get_device_value}
use device_wiresink_go.Config.Values.ReadBack.{get_device_value-set_device_value}
use device_wiresink_go.Config.Mapping.{lookup_device_name}
use device_wiresink_go.State.{Gateway}
use device_wiresink_go.Mqtt.{send_frame, sink_eid}
use device_wiresink_go.Mqtt.Egress.{send_frame_keeps}
use device_wiresink_go.Control.{send_data_status, status_frame}
use device_wiresink_go.Hex.{decode_string}
use device_wiresink_go.Parser.Params.{store_value}
use device_wiresink_go.Parser.Receive.{on_data_received, reject, receive_known, receive}
use device_wiresink_go.Parser.Receive.Fields.{Header, read_header}

-- Two states that agree in all but what was published.
abbrev pub SameButPublished : Gateway → Gateway → Type 0
SameButPublished g h = h ≡ record g { published = h.published }

pub send_data_status_keeps :
    (key : Text) (packet_type status n : ℕ) (g : Gateway)
    → SameButPublished g (send_data_status key packet_type status n g)
unfolding send_data_status
send_data_status_keeps key packet_type status n g = answered (decode_string sink_eid)
  where
    sent : Bytes → Gateway
    sent bytes = send_frame key (status_frame bytes packet_type status n) g

    guarded : (b : Bool) (bytes : Bytes) → SameButPublished g (if b then sent bytes else g)
    guarded true bytes = send_frame_keeps key (status_frame bytes packet_type status n) g
    guarded false bytes = refl

    answered :
        (r : Result Bytes)
        → SameButPublished g
            (elim r [ err e ↦ g | ok bytes ↦ if length bytes == 6 then sent bytes else g ])
    answered (err e) = refl
    answered (ok bytes) = guarded (length bytes == 6) bytes

pub reject_keeps :
    (sensor : Text) (h : Header) (g : Gateway) → SameButPublished g (reject sensor h g)
unfolding reject
reject_keeps sensor h g = ground (
  arith,
  send_data_status_keeps sensor 0b001 0x00 h.data_count g,
  send_data_status_keeps sensor 0b011 0x00 h.data_count g,
)

-- A frame of at least nine bytes of a known sensor whose checksum does not fit sets the time stamp
-- of its device and leaves every other value and all else as it was, but for what is published.
pub receive_rejected :
    (now seconds : ℕ) (frame spare : Bytes) (device : Text) (g : Gateway)
    → 9 ≤ length frame
    → lookup_device_name (read_header frame).sensor g.mapping ≡ some device
    → crc16 (read_header frame).checked ≢ (read_header frame).recv_crc
    → (after : Gateway) × (receive now seconds frame spare g ≡ done after)
      × SameButPublished (on_data_received now device g) after
      × ((other resource : Text)
          → get_device_value other resource after.values ≡ (
              if text_eq device other && text_eq (codes "lastDataTimestamp") resource
              then some (int64 now)
              else get_device_value other resource g.values))
unfolding receive receive_known on_data_received store_value
receive_rejected now seconds frame spare device g long known bad =
    let touched = on_data_received now device g in
    let keeps = reject_keeps (read_header frame).sensor (read_header frame) touched in
    (
      reject (read_header frame).sensor (read_header frame) touched,
      ground
          (arith, known, ==_iff (crc16 (read_header frame).checked) (read_header frame).recv_crc),
      keeps,
      λ other resource.
          ap (λ (s : Gateway). get_device_value other resource s.values) keeps
          ∙ get_device_value-set_device_value device (codes "lastDataTimestamp") other resource
              (int64 now) g.values,
    )
