-- ===== src/Parser/Receive/Overlong.antt =====
-- A parameter of internal/frameparser/parser.go that announces more bytes than there are.
use device_wiresink_go.Prelude.{
  ℕ, ◌+◌, ◌*◌, ◌%◌, ◌^◌, ◌<◌, ◌≤◌, ltb, ◌≡◌, refl, sym, ap, ◌∙◌, inl, arith, [], ◌∷◌, ◌++◌, false,
  append_assoc, some, length, length-append, All, All-append, IsByte, Bytes, Text, Assoc,
}
use device_wiresink_go.Prelude.Outcome.{done, panicked}
use device_wiresink_go.Crc.{crc16}
use device_wiresink_go.Wire.{with_crc, uint16_le, put_uint16_le, put_uint16_be}
use device_wiresink_go.Hex.{encode_upper}
use device_wiresink_go.Value.{Value}
use device_wiresink_go.State.{Gateway}
use device_wiresink_go.Config.Mapping.{lookup_device_name}
use device_wiresink_go.Control.{send_data_status}
use device_wiresink_go.Parser.Slices.{slice, uint16_at, data_len_at}
use device_wiresink_go.Parser.Slices.Reads.{uint16_at-pieces, data_len_at-pieces}
use device_wiresink_go.Parser.Receive.{on_data_received, params_loop, receive_params, receive}
use device_wiresink_go.Parser.Receive.Accepted.{accept-data, receive-header}
use device_wiresink_go.Parser.Receive.Framing.{header_of, read_header-with_crc}
use device_wiresink_go.Parser.Receive.Fields.{Header}

slice-panicked :
    (s spare : Bytes) (lo hi : ℕ) → length s + length spare < hi → slice s spare lo hi ≡ panicked
unfolding slice
slice-panicked s spare lo hi h = ground arith

module _ (t n : ℕ) (pre rest spare : Bytes) (small : t < 2 ^ 14) (byte : n < 2 ^ 8)
    (some_rest : 2 ≤ length rest) (overlong : length rest + length spare < n) where
  abbrev head : Bytes
  head = put_uint16_le (t * 2 ^ 2 + 1)

  abbrev frame : Bytes
  frame = pre ++ (head ++ n ∷ rest)

  length-frame : length frame ≡ length pre + 3 + length rest
  unfolding put_uint16_le
  length-frame = omega (arith, length-append pre (head ++ n ∷ rest))

  length-lead : length (pre ++ head) ≡ length pre + 2
  unfolding put_uint16_le
  length-lead = length-append pre head

  read_head : uint16_at uint16_le frame spare (length pre) ≡ done (t * 2 ^ 2 + 1)
  read_head = uint16_at-pieces pre (n ∷ rest) spare (t * 2 ^ 2 + 1) (length pre) refl (omega arith)

  read_size : data_len_at uint16_le frame spare 1 (length pre + 2) ≡ done (n, length pre + 2 + 1)
  read_size =
      let whole : n ≡ n % 2 ^ 8 = omega arith in
      let regroup : frame ≡ (pre ++ head) ++ n % 2 ^ 8 ∷ rest =
        sym (append_assoc pre head (n ∷ rest)) ∙ ap (λ (b : ℕ). (pre ++ head) ++ b ∷ rest) whole in
      ap (λ (s : Bytes). data_len_at uint16_le s spare 1 (length pre + 2)) regroup
      ∙ data_len_at-pieces 1 n (pre ++ head) rest spare (length pre + 2) byte (sym length-lead)

  params_loop-panicked :
      (device : Text) (found : Assoc Value) (g : Gateway)
      → params_loop 1 frame spare (length pre) device found g ≡ panicked
  unfolding params_loop
  params_loop-panicked device found g =
      let inside : ltb (length frame) (length pre + 2 + 2) ≡ false = ground (arith, length-frame) in
      let flag_of : (t * 2 ^ 2 + 1) % 2 ^ 2 ≡ 1 = omega arith in
      rw
        (
          inside,
          read_head,
          flag_of,
          read_size,
          slice-panicked frame spare (length pre + 2 + 1) (length pre + 2 + 1 + n)
              (omega (arith, length-frame)),
        )
        refl

receive_params-panicked :
    (frame spare : Bytes) (device : Text) (g : Gateway)
    → params_loop 1 frame spare 7 device [] g ≡ panicked
    → receive_params frame spare 1 device g ≡ panicked
unfolding receive_params
receive_params-panicked frame spare device g e = rw e refl

-- A frame of data of a known sensor, with a right checksum, whose one parameter announces, in a
-- length field of one byte, more bytes than the frame and its array hold behind that field, panics
-- the parser: the checksum is no protection, since the sender computes it.
pub receive_overlong :
    (now seconds t n : ℕ) (sensor contents spare : Bytes) (device : Text) (g : Gateway)
    → t < 2 ^ 14
    → n < 2 ^ 8
    → length contents + 2 + length spare < n
    → length sensor ≡ 6
    → All IsByte sensor
    → All IsByte contents
    → lookup_device_name (encode_upper sensor) g.mapping ≡ some device
    → receive now seconds
        (with_crc (sensor ++ 0x10 ∷ (put_uint16_le (t * 2 ^ 2 + 1) ++ n ∷ contents)))
        spare
        g
      ≡ panicked
unfolding with_crc put_uint16_be put_uint16_le
receive_overlong now seconds t n sensor contents spare device g small byte overlong six bytes more
      known =
    let field : Bytes = put_uint16_le (t * 2 ^ 2 + 1) in
    let body : Bytes = field ++ n ∷ contents in
    let crc : Bytes = put_uint16_be (crc16 (sensor ++ 0x10 ∷ body)) in
    let frame : Bytes = (sensor ++ 0x10 ∷ body) ++ crc in
    let pre : Bytes = sensor ++ 0x10 ∷ [] in
    let seven : length pre ≡ 7 = omega (arith, length-append sensor (0x10 ∷ [])) in
    let regroup : frame ≡ pre ++ (field ++ n ∷ (contents ++ crc)) = simp append_assoc in
    let sizes : length (contents ++ crc) ≡ length contents + 2 = length-append contents crc in
    let all : All IsByte (sensor ++ 0x10 ∷ body) =
      All-append IsByte sensor (0x10 ∷ body) bytes (ground arith) in
    let h : Header = header_of sensor 0x10 body in
    let touched : Gateway = on_data_received now device g in
    let sent : Gateway = send_data_status h.sensor (0 + 1) 0xFF 1 touched in
    receive-header now seconds frame spare device h g
      (read_header-with_crc sensor 0x10 body six all)
      (omega (arith, length-append (sensor ++ 0x10 ∷ body) crc, length-append sensor (0x10 ∷ body)))
      known refl
    ∙ accept-data seconds frame spare h.sensor device h 0 1 touched refl refl refl (inl refl)
    ∙ receive_params-panicked frame spare device sent (
        ap (λ (s : Bytes). params_loop 1 s spare 7 device [] sent) regroup
        ∙ ap
            (λ (i : ℕ).
              params_loop 1 (pre ++ (field ++ n ∷ (contents ++ crc))) spare i device [] sent)
            (sym seven)
        ∙ params_loop-panicked t n pre (contents ++ crc) spare small byte (omega (arith, sizes))
            (omega (arith, sizes)) device [] sent)
