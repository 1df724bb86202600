-- ===== src/Value.antt =====
-- The Go values that travel as `any` through the value table, and the decoded node list.
use device_wiresink_go.Prelude.{ℕ, Bool, List, Bytes, Text}

-- internal/config/routing_information.go.
pub record NodeTopology : Type 0 where
  pub eid : Text
  pub type_code : Text
  pub state : Text
  pub parent : Text

-- The dynamic types that the code stores. A float is held as its IEEE bit pattern, which is what
-- `math.Float32frombits` reinterprets; a signed number as its two's complement bit pattern.
pub data Value : Type 0 where
  float32 : ℕ → Value
  uint8 : ℕ → Value
  uint16 : ℕ → Value
  uint32 : ℕ → Value
  int16 : ℕ → Value
  int64 : ℕ → Value
  int8 : ℕ → Value
  int32 : ℕ → Value
  int : ℕ → Value
  uint64 : ℕ → Value
  uint : ℕ → Value
  float64 : ℕ → Value
  bool : Bool → Value
  string : Text → Value
  bytes : Bytes → Value
  float32_array : List ℕ → Value
  uint16_array : List ℕ → Value
  topology : List NodeTopology → Value
  -- What `json.Unmarshal` made of the text of an `Object` default.
  object : Text → Value
