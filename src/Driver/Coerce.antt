-- ===== src/Driver/Coerce.antt =====
-- `coerceTo` of internal/driver/wiresinkdriver.go and its helpers. A signed number is its two's
-- complement pattern, an int and an int64 one of 64 bits.
pub mod Integers
pub mod Ranges
pub mod Texts
use device_wiresink_go.Prelude.{
  ℕ, ◌+◌, ◌-◌, ◌%◌, ◌^◌, ltb, not, ◌||◌, Bool, true, false, List, [], ◌∷◌, Option, none, some,
  if◌then◌else◌, Text, Assoc, codes, text_eq, lookup,
}
use device_wiresink_go.Prelude.Outcome.{
  overflow, incompatible, unsupported_type, bad_number, Result, ok, err,
}
use device_wiresink_go.Value.{
  Value, float32, uint8, uint16, uint32, int16, int64, int8, int32, int, uint64, uint, float64,
  bool, string, bytes,
}
use device_wiresink_go.Hex.{decode_string}
use device_wiresink_go.Strconv.{parse_uint, parse_int, parse_bool, Runtime}

-- `int64(x)` of a signed number of `bits` bits.
abbrev pub sign_extend : ℕ → ℕ → ℕ
sign_extend bits x = if ltb x (2 ^ (bits - 1)) then x else x + (2 ^ 64 - 2 ^ bits)

-- `<` on int64.
abbrev pub int64_lt : ℕ → ℕ → Bool
int64_lt a b = ltb ((a + 2 ^ 63) % 2 ^ 64) ((b + 2 ^ 63) % 2 ^ 64)

-- The value types that `coerceTo` knows, by their names in the SDK.
pub data ValueType : Type 0 where
  bool_type int8_type int16_type int32_type int64_type : ValueType
  uint8_type uint16_type uint32_type uint64_type : ValueType
  float32_type float64_type string_type binary_type : ValueType

abbrev pub value_types : Assoc ValueType
value_types =
    (codes "Bool", bool_type)
    ∷ (codes "Int8", int8_type)
    ∷ (codes "Int16", int16_type)
    ∷ (codes "Int32", int32_type)
    ∷ (codes "Int64", int64_type)
    ∷ (codes "Uint8", uint8_type)
    ∷ (codes "Uint16", uint16_type)
    ∷ (codes "Uint32", uint32_type)
    ∷ (codes "Uint64", uint64_type)
    ∷ (codes "Float32", float32_type)
    ∷ (codes "Float64", float64_type)
    ∷ (codes "String", string_type)
    ∷ (codes "Binary", binary_type)
    ∷ []

-- The cases of the signed types: the range of `bits` bits, and the conversion.
abbrev pub signed_in : ℕ → (ℕ → Value) → Text → Option ℕ → Result Value
signed_in bits make name none = err (incompatible name)
signed_in bits make name (some i) =
    if int64_lt i (2 ^ 64 - 2 ^ (bits - 1)) || int64_lt (2 ^ (bits - 1) - 1) i
    then err (overflow name)
    else ok (make (i % 2 ^ bits))

-- The cases of the unsigned types.
abbrev pub unsigned_in : ℕ → (ℕ → Value) → Text → Option ℕ → Result Value
unsigned_in bits make name none = err (incompatible name)
unsigned_in bits make name (some n) =
    if ltb (2 ^ bits - 1) n then err (overflow name) else ok (make (n % 2 ^ bits))

-- The types of 64 bits have no range check.
abbrev pub whole_in : (ℕ → Value) → Text → Option ℕ → Result Value
whole_in make name none = err (incompatible name)
whole_in make name (some n) = ok (make n)

module _ (r : Runtime) where
  -- The text cases of `toInt64`: a text that is no int64 but a uint64 wraps around.
  unfoldable pub text_to_int64 : Text → Option ℕ
  text_to_int64 s = elim (parse_int s) [ some i ↦ some i | none ↦ parse_uint 64 s ]

  unfoldable pub to_int64 : Value → Option ℕ
  unfolding text_to_int64
  to_int64 (int x) = some x
  to_int64 (int8 x) = some (sign_extend 8 x)
  to_int64 (int16 x) = some (sign_extend 16 x)
  to_int64 (int32 x) = some (sign_extend 32 x)
  to_int64 (int64 x) = some x
  to_int64 (uint8 x) = some x
  to_int64 (uint16 x) = some x
  to_int64 (uint32 x) = some x
  to_int64 (uint x) = some x
  to_int64 (float64 x) = some (r.to_int64 x)
  to_int64 (float32 x) = some (r.to_int64 (r.widen x))
  to_int64 (string s) = text_to_int64 s
  to_int64 _ = none

  -- `if i >= 0`, on an int64.
  abbrev non_negative : ℕ → Option ℕ
  non_negative i = if int64_lt i 0 then none else some i

  abbrev float_to_uint64 : ℕ → Option ℕ
  float_to_uint64 x = if r.is_nonneg x then some (r.to_uint64 x) else none

  unfoldable pub to_uint64 : Value → Option ℕ
  to_uint64 (uint8 x) = some x
  to_uint64 (uint16 x) = some x
  to_uint64 (uint32 x) = some x
  to_uint64 (uint64 x) = some x
  to_uint64 (uint x) = some x
  to_uint64 (int x) = non_negative x
  to_uint64 (int8 x) = non_negative (sign_extend 8 x)
  to_uint64 (int16 x) = non_negative (sign_extend 16 x)
  to_uint64 (int32 x) = non_negative (sign_extend 32 x)
  to_uint64 (int64 x) = non_negative x
  to_uint64 (float64 x) = float_to_uint64 x
  to_uint64 (float32 x) = float_to_uint64 (r.widen x)
  to_uint64 (string s) = parse_uint 64 s
  to_uint64 _ = none

  unfoldable pub to_float64 : Value → Option ℕ
  to_float64 (float64 x) = some x
  to_float64 (float32 x) = some (r.widen x)
  to_float64 (int x) = some (r.of_int64 x)
  to_float64 (int8 x) = some (r.of_int64 (sign_extend 8 x))
  to_float64 (int16 x) = some (r.of_int64 (sign_extend 16 x))
  to_float64 (int32 x) = some (r.of_int64 (sign_extend 32 x))
  to_float64 (int64 x) = some (r.of_int64 x)
  to_float64 (uint x) = some (r.of_uint64 x)
  to_float64 (uint8 x) = some (r.of_uint64 x)
  to_float64 (uint16 x) = some (r.of_uint64 x)
  to_float64 (uint32 x) = some (r.of_uint64 x)
  to_float64 (uint64 x) = some (r.of_uint64 x)
  to_float64 (string s) = r.parse_float 64 s
  to_float64 _ = none

  -- `fmt.Sprint(x) != "0"`.
  abbrev prints_nonzero : Value → Result Value
  prints_nonzero v = ok (bool (not (text_eq (r.sprint v) (codes "0"))))

  -- The inner switch falls through to the last line of `coerceTo` for every other type.
  unfoldable pub coerce_to_bool : Value → Result Value
  coerce_to_bool (bool b) = ok (bool b)
  coerce_to_bool (string s) = elim (parse_bool s) [
    | none ↦ err (bad_number s)
    | some b ↦ ok (bool b)
  ]
  coerce_to_bool (float64 x) = ok (bool (r.is_nonzero x))
  coerce_to_bool (int x) = prints_nonzero (int x)
  coerce_to_bool (int32 x) = prints_nonzero (int32 x)
  coerce_to_bool (int64 x) = prints_nonzero (int64 x)
  coerce_to_bool (uint x) = prints_nonzero (uint x)
  coerce_to_bool (uint32 x) = prints_nonzero (uint32 x)
  coerce_to_bool (uint64 x) = prints_nonzero (uint64 x)
  coerce_to_bool _ = err (unsupported_type (codes "Bool"))

  unfoldable pub coerce_to_string : Value → Result Value
  coerce_to_string (string s) = ok (string s)
  coerce_to_string v = ok (string (r.sprint v))

  unfoldable pub coerce_to_binary : Value → Result Value
  coerce_to_binary (bytes b) = ok (bytes b)
  coerce_to_binary (string s) = elim (decode_string s) [ err e ↦ err e | ok b ↦ ok (bytes b) ]
  coerce_to_binary _ = err (incompatible (codes "[]byte"))

  abbrev float32_in : Option ℕ → Result Value
  float32_in none = err (incompatible (codes "float32"))
  float32_in (some x) =
      if r.fits_float32 x then ok (float32 (r.narrow x)) else err (overflow (codes "float32"))

  unfoldable pub coerce_to_type : ValueType → Value → Result Value
  unfolding to_int64 to_uint64 to_float64 coerce_to_bool coerce_to_string coerce_to_binary
  coerce_to_type bool_type v = coerce_to_bool v
  coerce_to_type int8_type v = signed_in 8 int8 (codes "int8") (to_int64 v)
  coerce_to_type int16_type v = signed_in 16 int16 (codes "int16") (to_int64 v)
  coerce_to_type int32_type v = signed_in 32 int32 (codes "int32") (to_int64 v)
  coerce_to_type int64_type v = whole_in int64 (codes "int64") (to_int64 v)
  coerce_to_type uint8_type v = unsigned_in 8 uint8 (codes "uint8") (to_uint64 v)
  coerce_to_type uint16_type v = unsigned_in 16 uint16 (codes "uint16") (to_uint64 v)
  coerce_to_type uint32_type v = unsigned_in 32 uint32 (codes "uint32") (to_uint64 v)
  coerce_to_type uint64_type v = whole_in uint64 (codes "uint64") (to_uint64 v)
  coerce_to_type float32_type v = float32_in (to_float64 v)
  coerce_to_type float64_type v = whole_in float64 (codes "float64") (to_float64 v)
  coerce_to_type string_type v = coerce_to_string v
  coerce_to_type binary_type v = coerce_to_binary v

  -- `coerceTo`.
  unfoldable pub coerce_to : Value → Text → Result Value
  unfolding coerce_to_type lookup
  coerce_to v name = elim (lookup name value_types) [
    | none ↦ err (unsupported_type name)
    | some type ↦ coerce_to_type type v
  ]
