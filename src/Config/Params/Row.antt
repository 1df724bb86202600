-- ===== src/Config/Params/Row.antt =====
-- A row of `paramMap` of internal/config/param_table_parser_data.go.
use Prim.Native.String.{String}
use device_wiresink_go.Prelude.{ℕ, Option, Text, codes}

-- The parse functions that the rows name.
pub data ParseFn : Type 0 where
  parse_float32 parse_uint8 parse_uint16 parse_uint32 parse_int16 : ParseFn
  parse_float32_array parse_uint16_array parse_topo : ParseFn

pub record ParamKey : Type 0 where
  pub feature_bits : ℕ
  pub code_bits : ℕ

-- `byte_len` is `none` for the -1 of a value of any length.
pub record ParamInfo : Type 0 where
  pub name : Text
  pub unit : String
  pub byte_len : Option ℕ
  pub data_type : String
  pub parse : ParseFn

abbrev pub ParamRow : Type 0
ParamRow = ParamKey × ParamInfo

abbrev pub row : ℕ → ℕ → String → String → Option ℕ → String → ParseFn → ParamRow
row feature code name unit byte_len data_type parse = (
  record { feature_bits = feature; code_bits = code },
  record {
    name = codes name;
    unit = unit;
    byte_len = byte_len;
    data_type = data_type;
    parse = parse;
  },
)
