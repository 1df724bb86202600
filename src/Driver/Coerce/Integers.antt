-- ===== src/Driver/Coerce/Integers.antt =====
-- What number a conversion of internal/driver/wiresinkdriver.go yields.
use device_wiresink_go.Prelude.{
  ℕ, ◌%◌, ◌^◌, ◌<◌, ◌≡◌, inl, inr, refl, sym, ap, ◌∙◌, subst, arith, ltb, true, false, Option, none,
  some, Bool-cases, Text, codes,
}
use device_wiresink_go.Prelude.Outcome.{Error, overflow, incompatible, Result, ok, err}
use device_wiresink_go.Value.{
  Value, uint8, uint16, uint32, int16, int64, int8, int32, int, uint64, uint,
}
use device_wiresink_go.Strconv.{Runtime}
use device_wiresink_go.Driver.Coerce.{
  sign_extend, signed_in, unsigned_in, whole_in, to_int64, to_uint64, ValueType, int8_type,
  int16_type, int32_type, int64_type, uint8_type, uint16_type, uint32_type, uint64_type,
  coerce_to_type,
}
use device_wiresink_go.Driver.Coerce.Ranges.{
  ℤ, pos, negsuc, signed, integer_of, IsInt64, in_range, type_of, IsInteger, Converts,
}

to_int64_lem :
    (r : Runtime) (v : Value) (z : ℤ)
    → IsInt64 v
    → integer_of v ≡ some z
    → (i : ℕ) × (to_int64 r v ≡ some i) × (i < 2 ^ 64) × (signed 64 i ≡ z)
unfolding to_int64
to_int64_lem r (int x) z h e = (x, refl, omega arith, ground arith)
to_int64_lem r (int8 x) z h e = (sign_extend 8 x, refl, ground arith, ground arith)
to_int64_lem r (int16 x) z h e = (sign_extend 16 x, refl, ground arith, ground arith)
to_int64_lem r (int32 x) z h e = (sign_extend 32 x, refl, ground arith, ground arith)
to_int64_lem r (int64 x) z h e = (x, refl, omega arith, ground arith)
to_int64_lem r (uint x) z h e = (x, refl, omega arith, ground arith)
to_int64_lem r (uint8 x) z h e = (x, refl, omega arith, ground arith)
to_int64_lem r (uint16 x) z h e = (x, refl, omega arith, ground arith)
to_int64_lem r (uint32 x) z h e = (x, refl, omega arith, ground arith)
to_int64_lem r v z h e = absurd h

-- `toUint64` drops what is negative.
abbrev from_ℤ : ℤ → Option ℕ
from_ℤ (pos n) = some n
from_ℤ (negsuc n) = none

to_uint64_lem :
    (r : Runtime) (v : Value) (z : ℤ) → IsInt64 v → integer_of v ≡ some z → to_uint64 r v ≡ from_ℤ z
unfolding to_uint64
to_uint64_lem r (int x) z h e = ground arith
to_uint64_lem r (int8 x) z h e = ground arith
to_uint64_lem r (int16 x) z h e = ground arith
to_uint64_lem r (int32 x) z h e = ground arith
to_uint64_lem r (int64 x) z h e = ground arith
to_uint64_lem r (uint x) z h e = ground arith
to_uint64_lem r (uint8 x) z h e = ground arith
to_uint64_lem r (uint16 x) z h e = ground arith
to_uint64_lem r (uint32 x) z h e = ground arith
to_uint64_lem r v z h e = absurd h

by_range :
    (t : ValueType) (z : ℤ) (o : Result Value)
    → (in_range t z ≡ true
        → (w : Value) × (o ≡ ok w) × (type_of w ≡ some t) × (integer_of w ≡ some z))
    → (in_range t z ≡ false → (e : Error) × (o ≡ err e))
    → Converts t z o
by_range t z o fits fails = elim (Bool-cases (in_range t z)) [
  | inl h ↦ inl (h, fits h)
  | inr h ↦ inr (h, fails h)
]

-- The conversions from an int64 with the pattern `i`.
module _ (i : ℕ) (small : i < 2 ^ 64) (name : Text) where
  abbrev unsigned : Option ℕ
  unsigned = from_ℤ (signed 64 i)

  int8-Converts : Converts int8_type (signed 64 i) (signed_in 8 int8 name (some i))
  int8-Converts =
      by_range int8_type (signed 64 i) _
        (λ fits. (int8 (i % 2 ^ 8), ground arith, refl, ground arith))
        (λ big. (overflow name, ground arith))

  int16-Converts : Converts int16_type (signed 64 i) (signed_in 16 int16 name (some i))
  int16-Converts =
      by_range int16_type (signed 64 i) _
        (λ fits. (int16 (i % 2 ^ 16), ground arith, refl, ground arith))
        (λ big. (overflow name, ground arith))

  int32-Converts : Converts int32_type (signed 64 i) (signed_in 32 int32 name (some i))
  int32-Converts =
      by_range int32_type (signed 64 i) _
        (λ fits. (int32 (i % 2 ^ 32), ground arith, refl, ground arith))
        (λ big. (overflow name, ground arith))

  int64-Converts : Converts int64_type (signed 64 i) (whole_in int64 name (some i))
  int64-Converts =
      by_range int64_type (signed 64 i) _ (λ fits. (int64 i, refl, refl, refl))
        (λ big. absurd (ground arith))

  uint8-Converts : Converts uint8_type (signed 64 i) (unsigned_in 8 uint8 name unsigned)
  uint8-Converts = elim (Bool-cases (ltb i (2 ^ 63))) [
    | inl plus ↦ rw plus (
        by_range uint8_type (pos i) _
          (λ fits. (uint8 (i % 2 ^ 8), ground arith, refl, ground arith))
          (λ big. (overflow name, ground arith)))
    | inr minus ↦ rw minus (inr (refl, (incompatible name, refl)))
  ]

  uint16-Converts : Converts uint16_type (signed 64 i) (unsigned_in 16 uint16 name unsigned)
  uint16-Converts = elim (Bool-cases (ltb i (2 ^ 63))) [
    | inl plus ↦ rw plus (
        by_range uint16_type (pos i) _
          (λ fits. (uint16 (i % 2 ^ 16), ground arith, refl, ground arith))
          (λ big. (overflow name, ground arith)))
    | inr minus ↦ rw minus (inr (refl, (incompatible name, refl)))
  ]

  uint32-Converts : Converts uint32_type (signed 64 i) (unsigned_in 32 uint32 name unsigned)
  uint32-Converts = elim (Bool-cases (ltb i (2 ^ 63))) [
    | inl plus ↦ rw plus (
        by_range uint32_type (pos i) _
          (λ fits. (uint32 (i % 2 ^ 32), ground arith, refl, ground arith))
          (λ big. (overflow name, ground arith)))
    | inr minus ↦ rw minus (inr (refl, (incompatible name, refl)))
  ]

  uint64-Converts : Converts uint64_type (signed 64 i) (whole_in uint64 name unsigned)
  uint64-Converts = elim (Bool-cases (ltb i (2 ^ 63))) [
    | inl plus ↦ rw plus (
        by_range uint64_type (pos i) _ (λ fits. (uint64 i, refl, refl, refl))
          (λ big. absurd (ground arith)))
    | inr minus ↦ rw minus (inr (refl, (incompatible name, refl)))
  ]

by_type :
    (r : Runtime) (v : Value) (t : ValueType)
    → IsInteger t
    → (i : ℕ) → i < 2 ^ 64
    → to_int64 r v ≡ some i
    → to_uint64 r v ≡ from_ℤ (signed 64 i)
    → Converts t (signed 64 i) (coerce_to_type r t v)
unfolding coerce_to_type
by_type r v int8_type k i small p q = rw p (int8-Converts i small _)
by_type r v int16_type k i small p q = rw p (int16-Converts i small _)
by_type r v int32_type k i small p q = rw p (int32-Converts i small _)
by_type r v int64_type k i small p q = rw p (int64-Converts i small (codes "int64"))
by_type r v uint8_type k i small p q = rw q (uint8-Converts i small _)
by_type r v uint16_type k i small p q = rw q (uint16-Converts i small _)
by_type r v uint32_type k i small p q = rw q (uint32-Converts i small _)
by_type r v uint64_type k i small p q = rw q (uint64-Converts i small _)
by_type r v t k i small p q = absurd k

-- A value of an integer type other than uint64 whose number is an int64 is converted to an integer
-- type exactly where that type has its number, and then to a value of that type for the same
-- number; otherwise the conversion is an error.
pub coerce_to_type-integer :
    (r : Runtime) (t : ValueType) (v : Value) (z : ℤ)
    → IsInteger t
    → IsInt64 v
    → integer_of v ≡ some z
    → Converts t z (coerce_to_type r t v)
unfolding coerce_to_type
coerce_to_type-integer r t v z known h e =
    let (i, read, small, same) = to_int64_lem r v z h e in
    let positive = to_uint64_lem r v z h e in
    subst (λ (y : ℤ). Converts t y (coerce_to_type r t v)) same
      (by_type r v t known i small read (positive ∙ ap from_ℤ (sym same)))
