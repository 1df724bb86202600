-- ===== src/Config/Decode.antt =====
-- The parse functions of internal/config/param_table_parser_data.go but `parseTopo`.
use device_wiresink_go.Prelude.{ℕ, ◌%◌, ◌==◌, List, [], ◌∷◌, if◌then◌else◌, length, Bytes}
use device_wiresink_go.Prelude.Outcome.{wrong_length, not_a_multiple, Result, ok, err}
use device_wiresink_go.Value.{
  Value, float32, uint8, uint16, uint32, int16, float32_array, uint16_array, topology,
}
use device_wiresink_go.Wire.{uint16_le, uint32_le}
use device_wiresink_go.Config.Params.Row.{ParseFn}
use device_wiresink_go.Config.Topo.{parse_topo}

unfoldable pub parse_float32 : Bytes → Result Value
parse_float32 (a ∷ b ∷ c ∷ d ∷ []) = ok (float32 (uint32_le a b c d))
parse_float32 bytes = err (wrong_length 4 (length bytes))

unfoldable pub parse_uint8 : Bytes → Result Value
parse_uint8 (a ∷ []) = ok (uint8 a)
parse_uint8 bytes = err (wrong_length 1 (length bytes))

unfoldable pub parse_uint16 : Bytes → Result Value
parse_uint16 (a ∷ b ∷ []) = ok (uint16 (uint16_le a b))
parse_uint16 bytes = err (wrong_length 2 (length bytes))

unfoldable pub parse_uint32 : Bytes → Result Value
parse_uint32 (a ∷ b ∷ c ∷ d ∷ []) = ok (uint32 (uint32_le a b c d))
parse_uint32 bytes = err (wrong_length 4 (length bytes))

-- The bit pattern stays; its type is now int16.
unfoldable pub parse_int16 : Bytes → Result Value
parse_int16 (a ∷ b ∷ []) = ok (int16 (uint16_le a b))
parse_int16 bytes = err (wrong_length 2 (length bytes))

-- The loops over the elements; what is left over at the end is not read.
unfoldable pub words32 : Bytes → List ℕ
words32 (a ∷ b ∷ c ∷ d ∷ rest) = uint32_le a b c d ∷ words32 rest
words32 _ = []

unfoldable pub words16 : Bytes → List ℕ
words16 (a ∷ b ∷ rest) = uint16_le a b ∷ words16 rest
words16 _ = []

unfoldable pub parse_float32_array : Bytes → Result Value
unfolding words32
parse_float32_array bytes =
    if length bytes % 4 == 0
    then ok (float32_array (words32 bytes))
    else err (not_a_multiple 4 (length bytes))

unfoldable pub parse_uint16_array : Bytes → Result Value
unfolding words16
parse_uint16_array bytes =
    if length bytes % 2 == 0
    then ok (uint16_array (words16 bytes))
    else err (not_a_multiple 2 (length bytes))

unfoldable pub parse_topo_value : Bytes → Result Value
parse_topo_value bytes = elim (parse_topo bytes) [ ok nodes ↦ ok (topology nodes) | err e ↦ err e ]

-- `info.Parse(valBytes)`. What `parseTopo` writes to `TopoList` is in State.
unfoldable pub parse_value : ParseFn → Bytes → Result Value
unfolding parse_float32 parse_uint8 parse_uint16 parse_uint32 parse_int16 parse_float32_array
    parse_uint16_array parse_topo_value
parse_value ParseFn.parse_float32 bytes = parse_float32 bytes
parse_value ParseFn.parse_uint8 bytes = parse_uint8 bytes
parse_value ParseFn.parse_uint16 bytes = parse_uint16 bytes
parse_value ParseFn.parse_uint32 bytes = parse_uint32 bytes
parse_value ParseFn.parse_int16 bytes = parse_int16 bytes
parse_value ParseFn.parse_float32_array bytes = parse_float32_array bytes
parse_value ParseFn.parse_uint16_array bytes = parse_uint16_array bytes
parse_value ParseFn.parse_topo bytes = parse_topo_value bytes
