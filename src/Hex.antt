-- ===== src/Hex.antt =====
-- Hexadecimal and decimal text: encoding/hex, strconv.Itoa and the digits of `toHex12`.
pub mod RoundTrip
use device_wiresink_go.Prelude.{
  ℕ, zero, suc, ◌+◌, ◌-◌, ◌*◌, ◌/◌, ◌%◌, ◌^◌, ◌&&◌, List, [], ◌∷◌, ◌++◌, Option, none, some, leb,
  ltb, if◌then◌else◌, get_or, Bytes, Text, codes,
}
use device_wiresink_go.Prelude.Outcome.{Error, bad_hex_digit, odd_hex, Result, ok, err}

abbrev pub hex_digits : Text
hex_digits = codes "0123456789ABCDEF"

-- `strings.ToUpper(hex.EncodeToString(b))`, and `toHex12` on six bytes.
unfoldable pub encode_upper : Bytes → Text
encode_upper [] = []
encode_upper (b ∷ bs) =
    get_or hex_digits (b / 2 ^ 4) 0 ∷ get_or hex_digits (b % 2 ^ 4) 0 ∷ encode_upper bs

unfoldable pub from_hex_char : ℕ → Option ℕ
from_hex_char c =
    if leb b'0' c && leb c b'9'
    then some (c - b'0')
    else if leb b'a' c && leb c b'f'
    then some (c - b'a' + 10)
    else if leb b'A' c && leb c b'F'
    then some (c - b'A' + 10)
    else none

-- `hex.DecodeString`: pairs of digits; a bad digit is told before an odd length.
unfoldable pub decode_string : Text → Result Bytes
unfolding from_hex_char
decode_string [] = ok []
decode_string (p ∷ []) = elim (from_hex_char p) [
  | none ↦ err (bad_hex_digit p)
  | some h ↦ err (odd_hex 1)
]
decode_string (p ∷ q ∷ rest) =
    let more = decode_string rest in
    elim (from_hex_char p) [
      | none ↦ err (bad_hex_digit p)
      | some h ↦ elim (from_hex_char q) [
        | none ↦ err (bad_hex_digit q)
        | some l ↦ elim more [ err e ↦ err e | ok bytes ↦ ok ((h * 2 ^ 4 + l) ∷ bytes) ]
      ]
    ]

-- `strconv.Itoa` of a number that is not negative; `n` rounds are enough for `n`.
unfoldable pub itoa_loop : ℕ → ℕ → Text → Text
itoa_loop zero n text = text
itoa_loop (suc fuel) n text =
    let digit : Text = (b'0' + n % 10) ∷ text in
    let rest = itoa_loop fuel (n / 10) digit in if ltb n 10 then digit else rest

unfoldable pub itoa : ℕ → Text
unfolding itoa_loop
itoa n = itoa_loop (suc n) n []
