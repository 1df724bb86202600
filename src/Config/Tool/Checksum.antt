-- ===== src/Config/Tool/Checksum.antt =====
-- The two copies of the checksum, in internal/frameparser/crc.go and in internal/config/tool.go.
use device_wiresink_go.Prelude.{ℕ, ◌≡◌, refl, List, [], ◌∷◌}
use device_wiresink_go.Crc
use device_wiresink_go.Config.Tool

crc16_loop_same :
    (bytes : List ℕ) (hi lo : ℕ) → Tool.crc16_loop hi lo bytes ≡ Crc.crc16_loop hi lo bytes
unfolding Tool.crc16_loop Crc.crc16_loop Tool.auch_crc_hi Tool.auch_crc_lo Crc.auch_crc_hi
    Crc.auch_crc_lo
crc16_loop_same [] hi lo = refl
crc16_loop_same (b ∷ bs) hi lo = crc16_loop_same bs _ _

-- On every sequence of bytes the checksum of the AT commands is the checksum of the frames.
pub crc16_same : (bytes : List ℕ) → Tool.crc16 bytes ≡ Crc.crc16 bytes
unfolding Tool.crc16 Crc.crc16
crc16_same bytes = crc16_loop_same bytes 0xFF 0xFF
