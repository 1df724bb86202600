-- ===== src/Mqtt.antt =====
-- The text handling of internal/mqttclient/mqttclient.go, and internal/relay/egress.go.
pub mod Connection
pub mod Egress
pub mod Ingress
use device_wiresink_go.Prelude.{
  ℕ, ◌%◌, ◌-◌, ◌==◌, ◌||◌, ◌&&◌, leb, Bool, List, [], ◌∷◌, ◌++◌, if◌then◌else◌, length, Bytes, Text,
  codes,
}
use device_wiresink_go.Prelude.Outcome.{Error, odd_hex, empty_hex, Result, ok, err}
use device_wiresink_go.Hex.{decode_string, encode_upper}
use device_wiresink_go.State.{Gateway, Publication}
use mathlib.Core.List.{reverse}

-- ASCII white space.
unfoldable pub is_space : ℕ → Bool
is_space c = c == 0x20 || c == 0x09 || c == 0x0A || c == 0x0B || c == 0x0C || c == 0x0D

unfoldable pub trim_left : Text → Text
unfolding is_space
trim_left [] = []
trim_left (c ∷ s) = let rest = trim_left s in if is_space c then rest else c ∷ s

-- `strings.TrimSpace` on ASCII text.
unfoldable pub trim_space : Text → Text
unfolding trim_left
trim_space s = reverse (trim_left (reverse (trim_left s)))

-- The single characters that the replacer takes out.
unfoldable pub is_separator : ℕ → Bool
is_separator c =
    c == 0x20
    || c == 0x09
    || c == 0x0A
    || c == 0x0D
    || c == b','
    || c == b';'
    || c == b':'
    || c == b'-'

-- `strings.NewReplacer(" ", "", …, "0x", "", "0X", "").Replace`: one pass from the left.
unfoldable pub remove_separators : Text → Text
unfolding is_separator
remove_separators [] = []
remove_separators (c ∷ []) = if is_separator c then [] else c ∷ []
remove_separators (c ∷ d ∷ s) =
    let rest = remove_separators (d ∷ s) in
    let after_prefix = remove_separators s in
    if is_separator c
    then rest
    else if c == b'0' && (d == b'x' || d == b'X')
    then after_prefix
    else c ∷ rest

unfoldable pub decode_hex_flexible : Text → Result Bytes
decode_hex_flexible s =
    let clean = remove_separators (trim_space s) in
    if length clean % 2 == 0 then decode_string clean else err (odd_hex (length clean))

-- The checks of `normalizeHex` on the text without separators.
unfoldable pub checked_hex : Text → Result (Text × Bytes)
checked_hex clean =
    if length clean == 0
    then err empty_hex
    else if length clean % 2 == 0
    then elim (decode_string clean) [ err e ↦ err e | ok raw ↦ ok (clean, raw) ]
    else err (odd_hex (length clean))

unfoldable pub normalize_hex : Text → Result (Text × Bytes)
normalize_hex s = checked_hex (remove_separators (trim_space s))

-- `strings.ToUpper` on ASCII text.
unfoldable pub to_upper : Text → Text
to_upper [] = []
to_upper (c ∷ s) = (if leb b'a' c && leb c b'z' then c - 32 else c) ∷ to_upper s

-- `PublishSinkCommand`. Its result is not used by the caller; a broker that takes every message
-- is assumed.
unfoldable pub publish_sink_command : Text → Text → Text → Gateway → Gateway
publish_sink_command topic eid text g = elim (normalize_hex text) [
  | err e ↦ g
  | ok (norm, raw) ↦ record g {
    published =
        g.published
        ++ record { topic = topic; eid = eid; data_len = length raw; hex = to_upper norm } ∷ [];
  }
]

abbrev pub down_topic : Text
down_topic = codes "edgex/server/response/device_wiresink/down"

abbrev pub sink_eid : Text
sink_eid = codes "238A0841D828"

-- `relay.SendFrame`: the destination is not used.
unfoldable pub send_frame : Text → Bytes → Gateway → Gateway
send_frame dst payload g = publish_sink_command down_topic sink_eid (encode_upper payload) g
