-- ===== src/Parser/Sharding/Ack.antt =====
-- `Frame.Bytes` of internal/config/param_table_parser_response.go, and `sendAck` of
-- internal/frameparser/sharding.go, which writes a frame by it.
use device_wiresink_go.Prelude.{
  ℕ, ◌*◌, ◌/◌, ◌%◌, ◌^◌, Bool, [], ◌∷◌, ◌++◌, if◌then◌else◌, Bytes, Text, bit_and, bit_or,
}
use device_wiresink_go.Crc.{crc16}
use device_wiresink_go.Wire.{put_uint16_be}
use device_wiresink_go.State.{Frame, Gateway}
use device_wiresink_go.Mqtt.{send_frame}

-- The sensor ID is written as its text, and the checksum low byte first.
unfoldable pub frame_bytes : Frame → Bytes
frame_bytes f =
    let flags =
      bit_or (bit_or (f.data_len * 2 ^ 4 % 2 ^ 8) (f.frag_ind * 2 ^ 3 % 2 ^ 8)) f.packet_type in
    f.sensor_id
    ++ f.data_len ∷ flags ∷ (f.payload ++ f.check % 2 ^ 8 ∷ f.check / 2 ^ 8 % 2 ^ 8 ∷ [])

-- ACK (2 bits), SSEQ (6 bits) and PSEQ (7 bits), in the places where the code puts them.
unfoldable pub ack_data : Bool → ℕ → ℕ → Bytes
unfolding put_uint16_be
ack_data ack_ok sseq pseq =
    let bits = if ack_ok then 0x3 else 0x0 in
    put_uint16_be
      (bit_or (bit_or (bit_and bits 0x3 * 2 ^ 14) (bit_and sseq 0x3F * 2 ^ 8)) (bit_and pseq 0x7F))

unfoldable pub ack_frame : Text → ℕ → Bool → ℕ → Frame
ack_frame key sseq ack_ok pseq = record {
  sensor_id = key;
  data_len = 1;
  frag_ind = 0;
  packet_type = 0b110;
  payload = ack_data ack_ok sseq pseq;
  check = crc16 (ack_data ack_ok sseq pseq);
}

unfoldable pub send_ack : Text → ℕ → Bool → ℕ → Gateway → Gateway
send_ack key sseq ack_ok pseq g = send_frame key (frame_bytes (ack_frame key sseq ack_ok pseq)) g
