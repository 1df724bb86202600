-- ===== src/Parser/Receive/Fields.antt =====
-- What `StartParser` of internal/frameparser/parser.go reads of a frame before it looks at the
-- parameters: a frame has a sensor ID of six bytes, a head, a body and a checksum, high byte first.
use device_wiresink_go.Prelude.{ℕ, ◌-◌, ◌/◌, ◌%◌, ◌^◌, length, take, drop, get_or, Bytes, Text}
use device_wiresink_go.Hex.{encode_upper}
use device_wiresink_go.Wire.{uint16_be}

pub record Header : Type 0 where
  pub sensor : Text
  pub data_count : ℕ
  pub frag_ind : ℕ
  pub packet_type : ℕ
  pub body : Bytes
  -- The bytes under the checksum, and the checksum received.
  pub checked : Bytes
  pub recv_crc : ℕ

-- For a frame of nine bytes at least.
unfoldable pub read_header : Bytes → Header
read_header frame =
    let n = length frame in
    let head = get_or frame 6 0 in
    record {
      sensor = encode_upper (take 6 frame);
      data_count = head / 2 ^ 4;
      frag_ind = head / 2 ^ 3 % 2;
      packet_type = head % 2 ^ 3;
      body = drop 7 (take (n - 2) frame);
      checked = take (n - 2) frame;
      recv_crc = uint16_be (get_or frame (n - 2) 0) (get_or frame (n - 1) 0);
    }
