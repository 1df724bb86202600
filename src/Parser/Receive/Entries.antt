-- ===== src/Parser/Receive/Entries.antt =====
-- The loop over parameters of internal/frameparser/parser.go on entries that `EncodeParamEntry` wrote.
use device_wiresink_go.Prelude.{
  ℕ, zero, suc, ◌+◌, ◌*◌, ◌%◌, ◌/◌, ◌^◌, ◌<◌, ◌≤◌, ltb, ◌≡◌, refl, sym, ap, ◌∙◌, arith, List, [],
  ◌∷◌, ◌++◌, false, append_assoc, length, length-append, All, Bytes, Text, Assoc,
}
use device_wiresink_go.Prelude.Outcome.{done}
use device_wiresink_go.Wire.{uint16_le, put_uint16_le}
use device_wiresink_go.Value.{Value}
use device_wiresink_go.State.{Gateway}
use device_wiresink_go.Control.{encode_param_entry}
use device_wiresink_go.Control.Entries.{Entry, WellFormed, encoded, encode_param_entry_lem}
use device_wiresink_go.Parser.Slices.{slice, uint16_at, data_len_at}
use device_wiresink_go.Parser.Slices.Reads.{
  len_bytes, FitsFlag, slice-pieces, uint16_at-pieces, data_len_at-pieces,
}
use device_wiresink_go.Parser.Params.{decode_param, store_param}
use device_wiresink_go.Parser.Receive.{params_loop}

-- What the loop keeps of entries: each is decoded by its type and stored, in their order.
unfoldable pub store_all : Text → List Entry → Assoc Value → Gateway → Assoc Value × Gateway
store_all device [] found g = (found, g)
store_all device (e ∷ es) found g =
    let (found', stored) = store_param device (decode_param e.param_type e.contents) found g in
    store_all device es found' stored

length-put_uint16_le : (v : ℕ) → length (put_uint16_le v) ≡ 2
unfolding put_uint16_le
length-put_uint16_le v = refl

-- An entry in its pieces: the head, the bytes of the length and the value.
module _ (t flag : ℕ) (contents pre tail spare : Bytes) (small : t < 2 ^ 14)
    (fits : FitsFlag flag (length contents)) (flag_lt : flag < 2 ^ 2) where
  abbrev head : Bytes
  head = put_uint16_le (t * 2 ^ 2 + flag)

  abbrev sizes : Bytes
  sizes = len_bytes flag (length contents)

  abbrev lead : Bytes
  lead = pre ++ (head ++ sizes)

  abbrev frame : Bytes
  frame = (lead ++ contents) ++ tail

  by_head : frame ≡ pre ++ (head ++ (sizes ++ (contents ++ tail)))
  by_head = simp append_assoc

  by_sizes : frame ≡ (pre ++ head) ++ (sizes ++ (contents ++ tail))
  by_sizes = simp append_assoc

  length-head : length (pre ++ head) ≡ length pre + 2
  length-head = omega (arith, length-append pre head, length-put_uint16_le (t * 2 ^ 2 + flag))

  pub length-lead : length lead ≡ length pre + 2 + length sizes
  length-lead = omega (
    arith,
    length-append pre (head ++ sizes),
    length-append head sizes,
    length-put_uint16_le (t * 2 ^ 2 + flag),
  )

  pub length-frame : length frame ≡ length lead + length contents + length tail
  length-frame = omega (arith, length-append (lead ++ contents) tail, length-append lead contents)

  pub read_head : uint16_at uint16_le frame spare (length pre) ≡ done (t * 2 ^ 2 + flag)
  read_head =
      ap (λ (s : Bytes). uint16_at uint16_le s spare (length pre)) by_head
      ∙ uint16_at-pieces pre (sizes ++ (contents ++ tail)) spare (t * 2 ^ 2 + flag) (length pre)
          refl (omega arith)

  pub read_size :
      data_len_at uint16_le frame spare flag (length pre + 2)
      ≡ done (length contents, length pre + 2 + length sizes)
  read_size =
      ap (λ (s : Bytes). data_len_at uint16_le s spare flag (length pre + 2)) by_sizes
      ∙ data_len_at-pieces flag (length contents) (pre ++ head) (contents ++ tail) spare
          (length pre + 2) fits (sym length-head)

  pub read_contents :
      (at : ℕ) → at ≡ length lead → slice frame spare at (at + length contents) ≡ done contents
  read_contents at e =
      ap (λ (s : Bytes). slice s spare at (at + length contents)) (append_assoc lead contents tail)
      ∙ slice-pieces lead contents tail spare at (at + length contents) e refl

  -- One round of the loop.
  module _ (room : 2 ≤ length tail) where
    params_loop-entry :
        (left : ℕ) (device : Text) (found : Assoc Value) (g : Gateway)
        → params_loop (suc left) frame spare (length pre) device found g ≡ (
            let (found', stored) = store_param device (decode_param t contents) found g in
            params_loop left frame spare (length (lead ++ contents)) device found' stored)
    unfolding params_loop
    params_loop-entry left device found g =
        let inside : ltb (length frame) (length pre + 2 + 2) ≡ false =
          ground (arith, length-frame, length-lead) in
        let flag_of : (t * 2 ^ 2 + flag) % 2 ^ 2 ≡ flag = omega arith in
        let type_of : (t * 2 ^ 2 + flag) / 2 ^ 2 ≡ t = omega arith in
        let behind : length pre + 2 + length sizes + length contents ≡ length (lead ++ contents) =
          omega (arith, length-append lead contents, length-lead) in
        rw
          (
            inside,
            read_head,
            flag_of,
            type_of,
            read_size,
            read_contents (length pre + 2 + length sizes) (sym length-lead),
            behind,
          )
          refl

pub FitsFlag-lt : (flag n : ℕ) → FitsFlag flag n → flag < 2 ^ 2
FitsFlag-lt zero n h = omega arith
FitsFlag-lt (suc zero) n h = omega arith
FitsFlag-lt (suc (suc zero)) n h = omega arith
FitsFlag-lt (suc (suc (suc zero))) n h = omega arith
FitsFlag-lt (suc (suc (suc (suc flag)))) n h = absurd h

-- The loop reads back all entries of a frame.
pub params_loop-encoded :
    (es : List Entry) (pre tail spare : Bytes) (device : Text) (found : Assoc Value) (g : Gateway)
    → All WellFormed es
    → 2 ≤ length tail
    → params_loop (length es) (pre ++ (encoded es ++ tail)) spare (length pre) device found g
      ≡ done (store_all device es found g)
unfolding encoded store_all
params_loop-encoded [] pre tail spare device found g h room = unfold params_loop in refl
params_loop-encoded (e ∷ es) pre tail spare device found g ((small, fits, bytes), h) room =
    let t : ℕ = e.param_type in
    let flag : ℕ = e.len_flag in
    let more : Bytes = encoded es ++ tail in
    let roomy : 2 ≤ length more = omega (arith, length-append (encoded es) tail) in
    let front : Bytes =
      (pre ++ (put_uint16_le (t * 2 ^ 2 + flag) ++ len_bytes flag (length e.contents)))
      ++ e.contents in
    let regroup : pre ++ ((encode_param_entry t flag e.contents ++ encoded es) ++ tail)
        ≡ front ++ more =
      rw (encode_param_entry_lem t flag e.contents small fits) (simp append_assoc) in
    let after = store_param device (decode_param t e.contents) found g in
    ap (λ (s : Bytes). params_loop (suc (length es)) s spare (length pre) device found g) regroup
    ∙ params_loop-entry t flag e.contents pre more spare small fits (FitsFlag-lt flag _ fits) roomy
        (length es) device found g
    ∙ params_loop-encoded es front tail spare device after.0 after.1 h room
