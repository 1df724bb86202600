-- ===== src/Parser/Receive/Framing.antt =====
-- Every frame that is built as sensor ID, head, body and checksum is taken apart into these by the
-- parser, and passes its check.
use device_wiresink_go.Prelude.{
  ℕ, ◌+◌, ◌-◌, ◌*◌, ◌/◌, ◌%◌, ◌^◌, ◌<◌, ◌≡◌, sym, ap, ap₂, ◌∙◌, arith, [], ◌∷◌, ◌++◌, append_assoc,
  length, length-append, take, drop, take-append, drop-append, get_or, get_or-append_at, All,
  IsByte, Bytes,
}
use device_wiresink_go.Crc.{crc16}
use device_wiresink_go.Crc.Table.{crc16-lt}
use device_wiresink_go.Hex.{encode_upper}
use device_wiresink_go.Wire.{with_crc, uint16_be}
use device_wiresink_go.Parser.Receive.Fields.{Header, read_header}

-- What the parser is to find in such a frame.
abbrev pub header_of : Bytes → ℕ → Bytes → Header
header_of sensor head body = record {
  sensor = encode_upper sensor;
  data_count = head / 2 ^ 4;
  frag_ind = head / 2 ^ 3 % 2;
  packet_type = head % 2 ^ 3;
  body = body;
  checked = sensor ++ head ∷ body;
  recv_crc = crc16 (sensor ++ head ∷ body);
}

module _ (buf : Bytes) (hi lo : ℕ) where
  abbrev whole : Bytes
  whole = buf ++ hi ∷ lo ∷ []

  length-whole : length whole ≡ length buf + 2
  length-whole = length-append buf (hi ∷ lo ∷ [])

  take-whole : take (length whole - 2) whole ≡ buf
  take-whole = take-append (length whole - 2) buf (hi ∷ lo ∷ []) (omega (arith, length-whole))

  high-whole : get_or whole (length whole - 2) 0 ≡ hi
  high-whole =
      get_or-append_at buf (hi ∷ lo ∷ []) (length whole - 2) 0 0 (omega (arith, length-whole))

  low-whole : get_or whole (length whole - 1) 0 ≡ lo
  low-whole =
      get_or-append_at buf (hi ∷ lo ∷ []) (length whole - 1) 1 0 (omega (arith, length-whole))

module _ (sensor : Bytes) (head : ℕ) (rest : Bytes) (six : length sensor ≡ 6) where
  take-sensor : take 6 (sensor ++ head ∷ rest) ≡ sensor
  take-sensor = take-append 6 sensor (head ∷ rest) six

  head-sensor : get_or (sensor ++ head ∷ rest) 6 0 ≡ head
  head-sensor = get_or-append_at sensor (head ∷ rest) 6 0 0 (omega arith)

  drop-sensor : drop 7 (sensor ++ head ∷ rest) ≡ rest
  drop-sensor =
      ap (drop 7) (sym (append_assoc sensor (head ∷ []) rest))
      ∙ drop-append 7 (sensor ++ head ∷ []) rest (omega (arith, length-append sensor (head ∷ [])))

-- Reading a frame of a sensor ID of six bytes, a head byte and a body, all of them bytes, that
-- with_crc closed gives back its parts, and the checksum in it is the checksum of the bytes before
-- it.
pub read_header-with_crc :
    (sensor : Bytes) (head : ℕ) (body : Bytes)
    → length sensor ≡ 6
    → All IsByte (sensor ++ head ∷ body)
    → read_header (with_crc (sensor ++ head ∷ body)) ≡ header_of sensor head body
unfolding read_header with_crc
read_header-with_crc sensor head body six all =
    let buf : Bytes = sensor ++ head ∷ body in
    let crc : ℕ = crc16 buf in
    let hi : ℕ = crc / 2 ^ 8 % 2 ^ 8 in
    let lo : ℕ = crc % 2 ^ 8 in
    let regroup : buf ++ hi ∷ lo ∷ [] ≡ sensor ++ head ∷ (body ++ hi ∷ lo ∷ []) =
      append_assoc sensor (head ∷ body) (hi ∷ lo ∷ []) in
    let tail : Bytes = body ++ hi ∷ lo ∷ [] in
    let first : get_or (buf ++ hi ∷ lo ∷ []) 6 0 ≡ head =
      ap (λ (t : Bytes). get_or t 6 0) regroup ∙ head-sensor sensor head tail six in
    let id : take 6 (buf ++ hi ∷ lo ∷ []) ≡ sensor =
      ap (take 6) regroup ∙ take-sensor sensor head tail six in
    let inner : take (length (buf ++ hi ∷ lo ∷ []) - 2) (buf ++ hi ∷ lo ∷ []) ≡ buf =
      take-whole buf hi lo in
    λ i. record {
      sensor = encode_upper (id i);
      data_count = first i / 2 ^ 4;
      frag_ind = first i / 2 ^ 3 % 2;
      packet_type = first i % 2 ^ 3;
      body = (ap (drop 7) inner ∙ drop-sensor sensor head body six) i;
      checked = inner i;
      recv_crc =
          (ap₂ uint16_be (high-whole buf hi lo) (low-whole buf hi lo)
              ∙ joined crc (crc16-lt buf all))
            i;
    }
  where
    joined : (v : ℕ) → v < 2 ^ 16 → v / 2 ^ 8 % 2 ^ 8 * 2 ^ 8 + v % 2 ^ 8 ≡ v
    joined v h = omega arith
