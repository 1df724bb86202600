-- ===== src/Control/Entries.antt =====
-- The bytes of `EncodeParamEntry` of internal/frameparser/topo_data_ctl.go.
use device_wiresink_go.Prelude.{
  ℕ, zero, suc, ◌+◌, ◌*◌, ◌%◌, ◌^◌, ◌<◌, ◌≡◌, refl, ap, ap₂, ◌∙◌, arith, List, [], ◌∷◌, ◌++◌,
  length, All, All-append, IsByte, Bytes, bit_and, bit_or,
}
use device_wiresink_go.Prelude.Bits.{bit_and-mask, bit_or-shift}
use device_wiresink_go.Wire.{put_uint16_le}
use device_wiresink_go.Control.{encode_param_entry}
use device_wiresink_go.Parser.Slices.Reads.{len_bytes, FitsFlag}

head16_lem :
    (t flag : ℕ)
    → t < 2 ^ 14
    → flag < 2 ^ 2
    → bit_or (bit_and t 0x3FFF * 2 ^ 2 % 2 ^ 16) (bit_and flag 0x03) ≡ t * 2 ^ 2 + flag
head16_lem t flag h k =
    ap₂ bit_or (ap (λ (m : ℕ). m * 2 ^ 2 % 2 ^ 16) (bit_and-mask 14 t h) ∙ omega arith)
      (bit_and-mask 2 flag k)
    ∙ bit_or-shift 2 t flag k

-- Where the length fits its flag, an entry is its head, the bytes of the length, and the value.
pub encode_param_entry_lem :
    (t flag : ℕ) (contents : Bytes)
    → t < 2 ^ 14
    → FitsFlag flag (length contents)
    → encode_param_entry t flag contents
      ≡ put_uint16_le (t * 2 ^ 2 + flag) ++ (len_bytes flag (length contents) ++ contents)
unfolding encode_param_entry
encode_param_entry_lem t zero contents h fits =
    rw (head16_lem t 0 h (omega arith)) (ground (arith, fits))
encode_param_entry_lem t (suc zero) contents h fits = rw (head16_lem t 1 h (omega arith)) refl
encode_param_entry_lem t (suc (suc zero)) contents h fits = rw (head16_lem t 2 h (omega arith)) refl
encode_param_entry_lem t (suc (suc (suc zero))) contents h fits =
    rw (head16_lem t 3 h (omega arith)) refl
encode_param_entry_lem t (suc (suc (suc (suc flag)))) contents h fits = absurd fits

-- A parameter: its type, the flag of its length, and the bytes of its value.
pub record Entry : Type 0 where
  pub param_type : ℕ
  pub len_flag : ℕ
  pub contents : Bytes

-- The type has 14 bits, the length fits the flag, and the value is made of bytes.
abbrev pub WellFormed : Entry → Type 0
WellFormed e =
    (e.param_type < 2 ^ 14) × FitsFlag e.len_flag (length e.contents) × All IsByte e.contents

-- The entries of a frame, one behind the other.
unfoldable pub encoded : List Entry → Bytes
encoded [] = []
encoded (e ∷ es) = encode_param_entry e.param_type e.len_flag e.contents ++ encoded es

len_bytes-IsByte : (flag n : ℕ) → All IsByte (len_bytes flag n)
unfolding put_uint16_le
len_bytes-IsByte zero n = tt
len_bytes-IsByte (suc zero) n = omega arith
len_bytes-IsByte (suc (suc zero)) n = omega arith
len_bytes-IsByte (suc (suc (suc flag))) n = omega arith

pub encoded-IsByte : (es : List Entry) → All WellFormed es → All IsByte (encoded es)
unfolding encoded put_uint16_le
encoded-IsByte [] h = tt
encoded-IsByte (e ∷ es) ((small, fits, bytes), h) =
    All-append IsByte (encode_param_entry e.param_type e.len_flag e.contents) (encoded es)
      (rw (encode_param_entry_lem e.param_type e.len_flag e.contents small fits) (
        All-append IsByte (put_uint16_le (e.param_type * 2 ^ 2 + e.len_flag)) _ (omega arith) (
          All-append IsByte (len_bytes e.len_flag (length e.contents)) e.contents
            (len_bytes-IsByte e.len_flag (length e.contents)) bytes)))
      (encoded-IsByte es h)
