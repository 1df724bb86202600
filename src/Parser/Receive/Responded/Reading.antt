-- ===== src/Parser/Receive/Responded/Reading.antt =====
-- How the loop over parameters of internal/config/param_table_parser_response.go reads one entry that
-- `EncodeParamEntry` wrote.
use device_wiresink_go.Prelude.{
  ℕ, zero, suc, ◌+◌, ◌*◌, ◌%◌, ◌/◌, ◌^◌, ◌<◌, ◌≤◌, ltb, ◌≡◌, ◌≢◌, refl, sym, ◌∙◌, arith, [], ◌++◌,
  none, some, true, false, Bool-cases, inl, inr, length, length-append, Bytes,
}
use device_wiresink_go.Prelude.Outcome.{done}
use device_wiresink_go.Wire.{uint16_le, uint16_be, put_uint16_le}
use device_wiresink_go.Parser.Slices.{data_len_at}
use device_wiresink_go.Parser.Slices.Reads.{len_bytes, FitsFlag}
use device_wiresink_go.Parser.Response.Loop.{read_value, read_param}
use device_wiresink_go.Parser.Receive.Entries.{
  length-lead, length-frame, read_head, read_size, read_contents,
}

data_len_at_order :
    (flag : ℕ) (s spare : Bytes) (i : ℕ)
    → flag ≢ 2
    → data_len_at uint16_be s spare flag i ≡ data_len_at uint16_le s spare flag i
unfolding data_len_at
data_len_at_order zero s spare i other = refl
data_len_at_order (suc zero) s spare i other = refl
data_len_at_order (suc (suc zero)) s spare i other = absurd (other refl)
data_len_at_order (suc (suc (suc flag))) s spare i other = refl

-- An entry in its pieces.
module _ (t flag : ℕ) (contents pre tail : Bytes) (small : t < 2 ^ 14)
    (fits : FitsFlag flag (length contents)) (flag_lt : flag < 2 ^ 2) (other : flag ≢ 2) where
  abbrev sizes : Bytes
  sizes = len_bytes flag (length contents)

  abbrev lead : Bytes
  lead = pre ++ (put_uint16_le (t * 2 ^ 2 + flag) ++ sizes)

  abbrev frame : Bytes
  frame = (lead ++ contents) ++ tail

  read_param_rest :
      ltb (length frame) (length pre + 2 + 2) ≡ false
      → read_param uint16_be frame (length pre) ≡ read_value frame t (length contents) (length lead)
  unfolding read_param
  read_param_rest inside =
      let flag_of : (t * 2 ^ 2 + flag) % 2 ^ 2 ≡ flag = omega arith in
      let type_of : (t * 2 ^ 2 + flag) / 2 ^ 2 ≡ t = omega arith in
      rw
        (
          inside,
          read_head t flag contents pre tail [] small fits flag_lt,
          flag_of,
          type_of,
          data_len_at_order flag frame [] (length pre + 2) other,
          read_size t flag contents pre tail [] small fits flag_lt,
          length-lead t flag contents pre tail [] small fits flag_lt,
        )
        refl

  -- With two bytes behind it, it is read.
  pub read_param-entry :
      2 ≤ length tail
      → read_param uint16_be frame (length pre)
        ≡ done (some (t, contents, length (lead ++ contents)))
  unfolding read_value
  read_param-entry room =
      let ahead = length-lead t flag contents pre tail [] small fits flag_lt in
      let whole = length-frame t flag contents pre tail [] small fits flag_lt in
      let inside : ltb (length frame) (length pre + 2 + 2) ≡ false = ground (arith, ahead, whole) in
      let room_behind : ltb (length frame) (length lead + length contents + 2) ≡ false =
        ground (arith, whole) in
      read_param_rest inside
      ∙ rw
          (
            read_value,
            room_behind,
            read_contents t flag contents pre tail [] small fits flag_lt (length lead) refl,
            sym (length-append lead contents),
          )
          refl

  -- With nothing behind it, it is not.
  pub read_param-last : length tail ≡ 0 → read_param uint16_be frame (length pre) ≡ done none
  unfolding read_param read_value
  read_param-last nothing = elim (Bool-cases (ltb (length frame) (length pre + 2 + 2))) [
    | inl short ↦ rw short refl
    | inr inside ↦
        let whole = length-frame t flag contents pre tail [] small fits flag_lt in
        let outside : ltb (length frame) (length lead + length contents + 2) ≡ true =
          ground (arith, whole, nothing) in
        read_param_rest inside ∙ rw (read_value, outside) refl
  ]
