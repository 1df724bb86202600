-- ===== src/Wire.antt =====
-- Byte order, and the fields that every frame of internal/frameparser shares.
use device_wiresink_go.Prelude.{ℕ, ◌+◌, ◌*◌, ◌/◌, ◌%◌, ◌^◌, [], ◌∷◌, ◌++◌, Bytes, bit_and, bit_or}
use device_wiresink_go.Crc.{crc16}

-- `binary.LittleEndian.PutUint16`, `binary.BigEndian.PutUint16`, `binary.LittleEndian.PutUint32`.
unfoldable pub put_uint16_le : ℕ → Bytes
put_uint16_le v = v % 2 ^ 8 ∷ v / 2 ^ 8 % 2 ^ 8 ∷ []

unfoldable pub put_uint16_be : ℕ → Bytes
put_uint16_be v = v / 2 ^ 8 % 2 ^ 8 ∷ v % 2 ^ 8 ∷ []

unfoldable pub put_uint32_le : ℕ → Bytes
put_uint32_le v = v % 2 ^ 8 ∷ v / 2 ^ 8 % 2 ^ 8 ∷ v / 2 ^ 16 % 2 ^ 8 ∷ v / 2 ^ 24 % 2 ^ 8 ∷ []

-- `binary.LittleEndian.Uint16` and the like, on the bytes in the order of the slice.
abbrev pub uint16_le : ℕ → ℕ → ℕ
uint16_le a b = a + b * 2 ^ 8

abbrev pub uint16_be : ℕ → ℕ → ℕ
uint16_be a b = a * 2 ^ 8 + b

abbrev pub uint32_le : ℕ → ℕ → ℕ → ℕ → ℕ
uint32_le a b c d = a + b * 2 ^ 8 + c * 2 ^ 16 + d * 2 ^ 24

-- `byte((dataLen&0x0F)<<4) | byte((fragInd&0x01)<<3) | byte(packetType&0x07)`.
unfoldable pub head_byte : ℕ → ℕ → ℕ → ℕ
head_byte data_len frag_ind packet_type =
    bit_or (bit_or (bit_and data_len 0x0F * 2 ^ 4) (bit_and frag_ind 0x01 * 2 ^ 3))
      (bit_and packet_type 0x07)

-- `byte((ctrlType&0x7F)<<1) | byte(requestSetFlag&0x01)`.
unfoldable pub ctrl_byte : ℕ → ℕ → ℕ
ctrl_byte ctrl_type request_set_flag =
    bit_or (bit_and ctrl_type 0x7F * 2) (bit_and request_set_flag 0x01)

-- The checksum behind what was built so far, high byte first.
unfoldable pub with_crc : Bytes → Bytes
unfolding put_uint16_be
with_crc buf = buf ++ put_uint16_be (crc16 buf)
