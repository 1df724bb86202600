-- ===== src/Mqtt/Egress.antt =====
-- A frame that is sent is published as the hexadecimal text of its bytes, and the receiver of such
-- a text gets the bytes back.
use device_wiresink_go.Prelude.{
  ℕ, ◌*◌, ◌/◌, ◌%◌, ◌^◌, ◌<◌, ◌≡◌, ◌≢◌, refl, ap, ◌∙◌, arith, ◌&&◌, ◌||◌, Bool, true, false, [],
  ◌∷◌, ◌++◌, leb, length, get_or, All, All-append, IsByte, Bytes, Text,
}
use device_wiresink_go.Prelude.Bits.{agree_below, agree_below→eq}
use device_wiresink_go.Prelude.Outcome.{ok}
use device_wiresink_go.Hex.{hex_digits, encode_upper}
use device_wiresink_go.Hex.RoundTrip.{decode_string-encode_upper}
use device_wiresink_go.State.{Gateway, Publication}
use device_wiresink_go.Mqtt.{
  trim_left, trim_space, remove_separators, decode_hex_flexible, checked_hex, normalize_hex,
  to_upper, publish_sink_command, down_topic, sink_eid, send_frame,
}
use mathlib.Core.List.{reverse, reverse-append, reverse-reverse}

-- A character that `encode_upper` writes: 0 to 9 and A to F.
abbrev IsDigit : ℕ → Type 0
IsDigit c = (leb b'0' c && leb c b'9' || leb b'A' c && leb c b'F') ≡ true

IsDigit-hex_digits : (n : ℕ) → n < 16 → IsDigit (get_or hex_digits n 0)
unfolding agree_below
IsDigit-hex_digits n h = ground (arith, agree_below→eq flag (λ i. 1) 16 n refl h)
  where
    digit : ℕ → Bool
    digit i = let c = get_or hex_digits i 0 in leb b'0' c && leb c b'9' || leb b'A' c && leb c b'F'

    flag : ℕ → ℕ
    flag i = elim (digit i) [ true ↦ 1 | false ↦ 0 ]

encode_upper-IsDigit : (bytes : Bytes) → All IsByte bytes → All IsDigit (encode_upper bytes)
unfolding encode_upper
encode_upper-IsDigit [] h = tt
encode_upper-IsDigit (b ∷ bs) (byte, h) = (
  IsDigit-hex_digits (b / 2 ^ 4) (omega arith),
  (IsDigit-hex_digits (b % 2 ^ 4) (omega arith), encode_upper-IsDigit bs h),
)

pub length-encode_upper : (bytes : Bytes) → length (encode_upper bytes) ≡ 2 * length bytes
unfolding encode_upper
length-encode_upper [] = refl
length-encode_upper (b ∷ bs) = omega (arith, length-encode_upper bs)

trim_left-IsDigit : (s : Text) → All IsDigit s → trim_left s ≡ s
unfolding trim_left
trim_left-IsDigit [] h = refl
trim_left-IsDigit (c ∷ s) (d, h) = ground arith

reverse-IsDigit : (s : Text) → All IsDigit s → All IsDigit (reverse s)
reverse-IsDigit [] h = tt
reverse-IsDigit (c ∷ s) (d, h) =
    rw (reverse-append (c ∷ []) s)
      (All-append IsDigit (reverse s) (c ∷ []) (reverse-IsDigit s h) (d, tt))

trim_space-IsDigit : (s : Text) → All IsDigit s → trim_space s ≡ s
unfolding trim_space
trim_space-IsDigit s h =
    ap (λ (t : Text). reverse (trim_left (reverse t))) (trim_left-IsDigit s h)
    ∙ ap reverse (trim_left-IsDigit (reverse s) (reverse-IsDigit s h))
    ∙ reverse-reverse s

remove_separators-IsDigit : (s : Text) → All IsDigit s → remove_separators s ≡ s
unfolding remove_separators
remove_separators-IsDigit [] h = refl
remove_separators-IsDigit (c ∷ []) h = ground arith
remove_separators-IsDigit (c ∷ d ∷ s) (p, h) = ground (arith, remove_separators-IsDigit (d ∷ s) h)

to_upper-IsDigit : (s : Text) → All IsDigit s → to_upper s ≡ s
unfolding to_upper
to_upper-IsDigit [] h = refl
to_upper-IsDigit (c ∷ s) (d, h) = ground (arith, to_upper-IsDigit s h)

clean-encode_upper :
    (bytes : Bytes)
    → All IsByte bytes
    → remove_separators (trim_space (encode_upper bytes)) ≡ encode_upper bytes
clean-encode_upper bytes h =
    let digits = encode_upper-IsDigit bytes h in
    ap remove_separators (trim_space-IsDigit _ digits) ∙ remove_separators-IsDigit _ digits

-- The subscriber's decoder reads back the bytes from the text that the publisher writes.
pub decode_hex_flexible-encode_upper :
    (bytes : Bytes) → All IsByte bytes → decode_hex_flexible (encode_upper bytes) ≡ ok bytes
decode_hex_flexible-encode_upper bytes h =
    unfold decode_hex_flexible in
    rw (clean-encode_upper bytes h)
      (ground (arith, length-encode_upper bytes, decode_string-encode_upper bytes h))

normalize_hex-encode_upper :
    (bytes : Bytes)
    → All IsByte bytes
    → bytes ≢ []
    → normalize_hex (encode_upper bytes) ≡ ok (encode_upper bytes, bytes)
normalize_hex-encode_upper [] h ne = absurd (ne refl)
normalize_hex-encode_upper (b ∷ bs) h ne =
    unfold normalize_hex in
    rw (clean-encode_upper (b ∷ bs) h) (
      unfold checked_hex in
      ground (arith, length-encode_upper (b ∷ bs), decode_string-encode_upper (b ∷ bs) h))

-- What `SendFrame` publishes for a frame.
abbrev pub publication : Bytes → Publication
publication payload = record {
  topic = down_topic;
  eid = sink_eid;
  data_len = length payload;
  hex = encode_upper payload;
}

-- SendFrame publishes each frame of bytes that is not empty once, behind what was published before,
-- with its length and its bytes as text, and changes nothing else.
pub send_frame-publication :
    (dst : Text) (payload : Bytes) (g : Gateway)
    → All IsByte payload
    → payload ≢ []
    → send_frame dst payload g ≡ record g { published = g.published ++ publication payload ∷ [] }
unfolding send_frame publish_sink_command
send_frame-publication dst payload g h ne = ground (
  arith,
  normalize_hex-encode_upper payload h ne,
  to_upper-IsDigit (encode_upper payload) (encode_upper-IsDigit payload h),
)

-- Sending touches nothing but what is published.
pub send_frame_keeps :
    (dst : Text) (payload : Bytes) (g : Gateway)
    → send_frame dst payload g ≡ record g { published = (send_frame dst payload g).published }
unfolding send_frame publish_sink_command
send_frame_keeps dst payload g = ground arith
