-- ===== src/Hex/RoundTrip.antt =====
-- Decoding what was encoded.
use device_wiresink_go.Prelude.{
  ℕ, ◌/◌, ◌%◌, ◌^◌, ◌<◌, ◌≡◌, refl, arith, [], ◌∷◌, none, some, get_or, All, IsByte, Bytes,
}
use device_wiresink_go.Prelude.Bits.{agree_below, agree_below→eq}
use device_wiresink_go.Prelude.Outcome.{ok}
use device_wiresink_go.Hex.{hex_digits, encode_upper, from_hex_char, decode_string}

from_hex_char-digit : (n : ℕ) → n < 16 → from_hex_char (get_or hex_digits n 0) ≡ some n
unfolding from_hex_char agree_below
from_hex_char-digit n h = ground (arith, agree_below→eq digit (λ i. i) 16 n refl h)
  where
    digit : ℕ → ℕ
    digit i = elim (from_hex_char (get_or hex_digits i 0)) [ none ↦ 16 | some d ↦ d ]

-- `hex.DecodeString` reads back the bytes that were written in upper case.
pub decode_string-encode_upper :
    (bytes : Bytes) → All IsByte bytes → decode_string (encode_upper bytes) ≡ ok bytes
unfolding decode_string encode_upper
decode_string-encode_upper [] h = refl
decode_string-encode_upper (b ∷ bs) (byte, h) = ground (
  arith,
  from_hex_char-digit (b / 2 ^ 4) (omega arith),
  from_hex_char-digit (b % 2 ^ 4) (omega arith),
  decode_string-encode_upper bs h,
)
