-- ===== src/Driver/Coerce/Texts.antt =====
-- The conversions of internal/driver/wiresinkdriver.go from decimal texts.
use device_wiresink_go.Prelude.{ℕ, ◌^◌, ◌<◌, ◌≡◌, refl, arith, ltb, some, if◌then◌else◌, codes}
use device_wiresink_go.Prelude.Outcome.{overflow, ok, err}
use device_wiresink_go.Value.{string, uint8, uint16, uint32, uint64, int64}
use device_wiresink_go.Hex.{itoa}
use device_wiresink_go.Strconv.{Runtime}
use device_wiresink_go.Strconv.Numbers.{parse_uint-itoa, parse_int-itoa}
use device_wiresink_go.Driver.Coerce.{
  uint8_type, uint16_type, uint32_type, uint64_type, int64_type, text_to_int64, coerce_to_type,
}

text_to_int64-itoa : (r : Runtime) (n : ℕ) → n < 2 ^ 64 → text_to_int64 r (itoa n) ≡ some n
unfolding text_to_int64
text_to_int64-itoa r n h = ground (arith, parse_int-itoa n h, parse_uint-itoa 64 n h)

-- The decimal text of a uint64 is converted to each unsigned type that has the number, and to an
-- overflow by the smaller ones. To int64 it is converted without an error as well: a number from
-- 2^63 on becomes a negative one, the number with the same bits.
pub coerce_to_type-itoa :
    (r : Runtime) (n : ℕ)
    → n < 2 ^ 64
    → (coerce_to_type r uint8_type (string (itoa n))
        ≡ (if ltb n (2 ^ 8) then ok (uint8 n) else err (overflow (codes "uint8"))))
      × (coerce_to_type r uint16_type (string (itoa n))
          ≡ (if ltb n (2 ^ 16) then ok (uint16 n) else err (overflow (codes "uint16"))))
      × (coerce_to_type r uint32_type (string (itoa n))
          ≡ (if ltb n (2 ^ 32) then ok (uint32 n) else err (overflow (codes "uint32"))))
      × (coerce_to_type r uint64_type (string (itoa n)) ≡ ok (uint64 n))
      × (coerce_to_type r int64_type (string (itoa n)) ≡ ok (int64 n))
unfolding coerce_to_type
coerce_to_type-itoa r n h =
    let read = parse_uint-itoa 64 n h in
    (
      rw read (ground arith),
      rw read (ground arith),
      rw read (ground arith),
      rw read refl,
      rw (text_to_int64-itoa r n h) refl,
    )
