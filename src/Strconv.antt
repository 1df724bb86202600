-- ===== src/Strconv.antt =====
-- strconv and fmt, as far as internal/config and internal/driver use them. `bits` is the size of
-- the number that is wanted, 64 at most.
pub mod Numbers
use device_wiresink_go.Prelude.{
  ℕ, ◌+◌, ◌-◌, ◌*◌, ◌%◌, ◌^◌, ◌==◌, ◌&&◌, ltb, leb, Bool, true, false, List, [], ◌∷◌, Option, none,
  some, if◌then◌else◌, Text, Assoc, codes, lookup,
}
use device_wiresink_go.Value.{Value}

-- The digits that are left; a number that grows past `bits` is a range error.
unfoldable pub parse_digits : ℕ → ℕ → Text → Option ℕ
parse_digits bits acc [] = some acc
parse_digits bits acc (c ∷ s) =
    let grown = acc * 10 + (c - b'0') in
    let rest = parse_digits bits grown s in
    if leb b'0' c && leb c b'9' then (if ltb grown (2 ^ bits) then rest else none) else none

-- `strconv.ParseUint(s, 10, bits)`.
unfoldable pub parse_uint : ℕ → Text → Option ℕ
unfolding parse_digits
parse_uint bits [] = none
parse_uint bits (c ∷ s) = parse_digits bits 0 (c ∷ s)

-- A number with its sign, as a pattern of 64 bits; the cutoff is 2^63.
unfoldable pub with_sign : Bool → Option ℕ → Option ℕ
with_sign negative none = none
with_sign false (some n) = if ltb n (2 ^ 63) then some n else none
with_sign true (some n) = if leb n (2 ^ 63) then some ((2 ^ 64 - n) % 2 ^ 64) else none

-- `strconv.ParseInt(s, 10, 64)`.
unfoldable pub parse_int : Text → Option ℕ
unfolding parse_uint with_sign
parse_int [] = none
parse_int (c ∷ s) =
    if c == b'+'
    then with_sign false (parse_uint 64 s)
    else if c == b'-'
    then with_sign true (parse_uint 64 s)
    else with_sign false (parse_uint 64 (c ∷ s))

abbrev truths : Assoc Bool
truths =
    (codes "1", true)
    ∷ (codes "t", true)
    ∷ (codes "T", true)
    ∷ (codes "TRUE", true)
    ∷ (codes "true", true)
    ∷ (codes "True", true)
    ∷ (codes "0", false)
    ∷ (codes "f", false)
    ∷ (codes "F", false)
    ∷ (codes "FALSE", false)
    ∷ (codes "false", false)
    ∷ (codes "False", false)
    ∷ []

-- `strconv.ParseBool(s)`.
unfoldable pub parse_bool : Text → Option Bool
unfolding lookup
parse_bool s = lookup s truths

-- What the development does not compute: the text of a value, and floating-point numbers. A float
-- is its IEEE bit pattern, an int64 or uint64 its pattern of 64 bits.
pub record Runtime : Type 0 where
  -- `fmt.Sprint`.
  pub sprint : Value → Text
  -- `strconv.ParseFloat`, by the bit size.
  pub parse_float : ℕ → Text → Option ℕ
  -- `float64(x)` of a float32, and `float32(x)` of a float64.
  pub widen : ℕ → ℕ
  pub narrow : ℕ → ℕ
  -- `int64(x)` and `uint64(x)` of a float64.
  pub to_int64 : ℕ → ℕ
  pub to_uint64 : ℕ → ℕ
  -- `float64(x)` of an int64 and of a uint64.
  pub of_int64 : ℕ → ℕ
  pub of_uint64 : ℕ → ℕ
  -- `x != 0`, `x >= 0`, and whether `-math.MaxFloat32 <= x && x <= math.MaxFloat32` or x is NaN.
  pub is_nonzero : ℕ → Bool
  pub is_nonneg : ℕ → Bool
  pub fits_float32 : ℕ → Bool
