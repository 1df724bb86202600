-- ===== src/Driver/Coerce/Ranges.antt =====
-- The numbers that the integer types of internal/driver/wiresinkdriver.go hold.
use device_wiresink_go.Prelude.{
  ℕ, ◌-◌, ◌^◌, ◌<◌, ◌≡◌, ◌⊎◌, ltb, Bool, true, false, Option, none, some, if◌then◌else◌,
}
use device_wiresink_go.Prelude.Outcome.{Error, Result, ok, err}
use device_wiresink_go.Value.{
  Value, uint8, uint16, uint32, int16, int64, int8, int32, int, uint64, uint,
}
use device_wiresink_go.Driver.Coerce.{
  ValueType, int8_type, int16_type, int32_type, int64_type, uint8_type, uint16_type, uint32_type,
  uint64_type,
}

-- `negsuc n` is -(n + 1).
pub data ℤ : Type 0 where
  pos : ℕ → ℤ
  negsuc : ℕ → ℤ

-- The integer of a two's complement pattern.
abbrev pub signed : ℕ → ℕ → ℤ
signed bits x = if ltb x (2 ^ (bits - 1)) then pos x else negsuc (2 ^ bits - 1 - x)

-- The number that a value of an integer type stands for.
abbrev pub integer_of : Value → Option ℤ
integer_of (int x) = some (signed 64 x)
integer_of (int8 x) = some (signed 8 x)
integer_of (int16 x) = some (signed 16 x)
integer_of (int32 x) = some (signed 32 x)
integer_of (int64 x) = some (signed 64 x)
integer_of (uint x) = some (pos x)
integer_of (uint8 x) = some (pos x)
integer_of (uint16 x) = some (pos x)
integer_of (uint32 x) = some (pos x)
integer_of (uint64 x) = some (pos x)
integer_of v = none

-- A value of an integer type other than uint64 whose number is an int64.
abbrev pub IsInt64 : Value → Type 0
IsInt64 (int x) = x < 2 ^ 64
IsInt64 (int8 x) = x < 2 ^ 8
IsInt64 (int16 x) = x < 2 ^ 16
IsInt64 (int32 x) = x < 2 ^ 32
IsInt64 (int64 x) = x < 2 ^ 64
IsInt64 (uint x) = x < 2 ^ 63
IsInt64 (uint8 x) = x < 2 ^ 8
IsInt64 (uint16 x) = x < 2 ^ 16
IsInt64 (uint32 x) = x < 2 ^ 32
IsInt64 v = ⊥

-- The range of an integer type.
abbrev pub in_range : ValueType → ℤ → Bool
in_range int8_type (pos n) = ltb n (2 ^ 7)
in_range int8_type (negsuc n) = ltb n (2 ^ 7)
in_range int16_type (pos n) = ltb n (2 ^ 15)
in_range int16_type (negsuc n) = ltb n (2 ^ 15)
in_range int32_type (pos n) = ltb n (2 ^ 31)
in_range int32_type (negsuc n) = ltb n (2 ^ 31)
in_range int64_type (pos n) = ltb n (2 ^ 63)
in_range int64_type (negsuc n) = ltb n (2 ^ 63)
in_range uint8_type (pos n) = ltb n (2 ^ 8)
in_range uint16_type (pos n) = ltb n (2 ^ 16)
in_range uint32_type (pos n) = ltb n (2 ^ 32)
in_range uint64_type (pos n) = ltb n (2 ^ 64)
in_range t z = false

-- The integer type of a value.
abbrev pub type_of : Value → Option ValueType
type_of (int8 x) = some int8_type
type_of (int16 x) = some int16_type
type_of (int32 x) = some int32_type
type_of (int64 x) = some int64_type
type_of (uint8 x) = some uint8_type
type_of (uint16 x) = some uint16_type
type_of (uint32 x) = some uint32_type
type_of (uint64 x) = some uint64_type
type_of v = none

abbrev pub IsInteger : ValueType → Type 0
IsInteger int8_type = Unit {0}
IsInteger int16_type = Unit {0}
IsInteger int32_type = Unit {0}
IsInteger int64_type = Unit {0}
IsInteger uint8_type = Unit {0}
IsInteger uint16_type = Unit {0}
IsInteger uint32_type = Unit {0}
IsInteger uint64_type = Unit {0}
IsInteger t = ⊥

-- A value of the type for the number, where the type has the number; an error otherwise.
abbrev pub Converts : ValueType → ℤ → Result Value → Type 0
Converts t z o =
    ((in_range t z ≡ true)
      × ((w : Value) × (o ≡ ok w) × (type_of w ≡ some t) × (integer_of w ≡ some z)))
    ⊎ ((in_range t z ≡ false) × ((e : Error) × (o ≡ err e)))
