-- ===== src/Control/General.antt =====
-- `BuildGeneralParamFrame` of internal/frameparser/usual_param_ctl.go.
use device_wiresink_go.Prelude.{
  ℕ, ◌*◌, ◌==◌, ◌||◌, ltb, List, [], ◌∷◌, ◌++◌, none, some, if◌then◌else◌, length, Bytes, Text,
  Assoc, lookup, bit_and, bit_or, ◌^◌,
}
use device_wiresink_go.Prelude.Outcome.{param_count, missing_value, wrong_length, Result, ok, err}
use device_wiresink_go.Wire.{put_uint16_le, ctrl_byte, with_crc}
use device_wiresink_go.Config.ParamTable.{Table, get_entry_copy}
use device_wiresink_go.Control.{packet_type_control}

abbrev pub ctrl_type_general_params : ℕ
ctrl_type_general_params = 0x03

abbrev pub max_params : ℕ
max_params = 16

infixl 5 ◌>>=◌
abbrev pub ◌>>=◌ : {A B : Type 0} → Result A → (A → Result B) → Result B
ok a >>= f = f a
err e >>= f = err e

abbrev required : Text → Assoc Bytes → Result Bytes
required name params = elim (lookup name params) [
  | none ↦ err (missing_value name)
  | some value ↦ ok value
]

abbrev of_length : ℕ → Bytes → Result Bytes
of_length n value = if length value == n then ok value else err (wrong_length n (length value))

-- The loop that writes the parameters in order; the entry in the table stays as it was.
unfoldable pub parameter_list : List Text → Assoc Bytes → Table → Bytes → Result Bytes
parameter_list [] params table buf = ok buf
parameter_list (name ∷ names) params table buf = do
  entry ← get_entry_copy name table
  value ← required name params
  checked ← of_length entry.length value
  parameter_list names params table (buf ++ put_uint16_le entry.head16 ++ checked)

-- The frame around a number of parameters and their list.
unfoldable pub general_frame : Bytes → ℕ → ℕ → Bytes → Bytes
general_frame sensor request_set_flag data_len list =
    let head = bit_or (bit_and data_len 0x0F * 2 ^ 4) (bit_and packet_type_control 0x07) in
    let ctrl = ctrl_byte ctrl_type_general_params request_set_flag in
    with_crc (sensor ++ head ∷ ctrl ∷ (if request_set_flag == 1 then list else []))

unfoldable pub build_general_param_frame :
    Bytes → ℕ → List Text → Assoc Bytes → Table → Result Bytes
unfolding parameter_list general_frame
build_general_param_frame sensor request_set_flag order params table =
    let m = length order in
    if request_set_flag == 0
    then ok (general_frame sensor request_set_flag 0x0F [])
    else if m == 0 || ltb max_params m
    then err (param_count m)
    else do
      list ← parameter_list order params table []
      ok (general_frame sensor request_set_flag (bit_and m 0x0F) list)
