-- ===== src/Config/Topo.antt =====
-- `parseTopo` of internal/config/param_table_parser_data.go. The index `i` into `data` is the rest
-- of the bytes from `i` on.
pub mod Ending
pub mod RoundTrip
use device_wiresink_go.Prelude.{
  Option, none, some, ℕ, zero, suc, ◌==◌, ◌&&◌, leb, Bool, true, false, List, [], ◌∷◌, ◌++◌,
  if◌then◌else◌, length, take, drop, get_or, Bytes,
}
use device_wiresink_go.Prelude.Outcome.{
  Error, out_of_fuel, no_node_start, missing_comma, missing_field, Result, ok, err,
}
use device_wiresink_go.Value.{NodeTopology}
use device_wiresink_go.Hex.{encode_upper, itoa}

-- 16 bytes are left, and the bytes 6, 8 and 10 are commas.
unfoldable pub looks_like_node : Bytes → Bool
looks_like_node rest =
    leb 16 (length rest)
    && get_or rest 6 0 == 0x2C
    && get_or rest 8 0 == 0x2C
    && get_or rest 10 0 == 0x2C

-- The loop that looks for the first node; an empty rest is `i >= n`.
unfoldable pub find_start : Bytes → Bytes
find_start [] = []
find_start (b ∷ rest) =
    let later = find_start rest in if looks_like_node (b ∷ rest) then b ∷ rest else later

-- `if i >= n || data[i] != 0x2C` and the step over the comma.
unfoldable pub skip_comma : ℕ → Bytes → Result Bytes
skip_comma which [] = err (missing_comma which)
skip_comma which (b ∷ rest) = if b == 0x2C then ok rest else err (missing_comma which)

unfoldable pub next_byte : ℕ → Bytes → Result (ℕ × Bytes)
next_byte which [] = err (missing_field which)
next_byte which (b ∷ rest) = ok (b, rest)

infixl 5 ◌>>=◌
abbrev ◌>>=◌ : {A B : Type 0} → Result A → (A → Result B) → Result B
ok a >>= f = f a
err e >>= f = err e

-- One node of 16 bytes and what follows it, with every check on the way.
unfoldable pub read_node : Bytes → Result (NodeTopology × Bytes)
unfolding skip_comma next_byte
read_node bytes = do
  after_eid ← skip_comma 1 (drop 6 bytes)
  (state_byte, after_state) ← next_byte 1 after_eid
  at_type ← skip_comma 2 after_state
  (type_byte, after_type) ← next_byte 2 at_type
  at_parent ← skip_comma 3 after_type
  let node : NodeTopology = record {
    eid = encode_upper (take 6 bytes);
    type_code = itoa type_byte;
    state = itoa state_byte;
    parent = encode_upper (take 6 at_parent);
  }
  if leb 6 (length at_parent) then ok (node, drop 6 at_parent) else err (missing_field 3)

-- What stands behind a node: `none` ends the loop, and otherwise it goes on with these bytes.
unfoldable pub next_node : Bytes → Option Bytes
next_node [] = none
next_node (b ∷ rest) =
    if b == 0x24 then some rest else if looks_like_node (b ∷ rest) then some (b ∷ rest) else none

-- The loop over the nodes. Each round takes 16 bytes.
unfoldable pub topo_loop : ℕ → Bytes → List NodeTopology → Result (List NodeTopology)
topo_loop zero bytes nodes = err out_of_fuel
topo_loop (suc fuel) bytes nodes = elim (looks_like_node bytes) [
  | false ↦ ok nodes
  | true ↦ elim (read_node bytes) [
    | err e ↦ err e
    | ok (node, after) ↦ elim (next_node after) [
      | none ↦ ok (nodes ++ node ∷ [])
      | some rest ↦ topo_loop fuel rest (nodes ++ node ∷ [])
    ]
  ]
]

-- `length data` rounds are enough.
unfoldable pub parse_topo : Bytes → Result (List NodeTopology)
parse_topo bytes = elim (find_start bytes) [
  | [] ↦ err no_node_start
  | b ∷ rest ↦ topo_loop (length bytes) (b ∷ rest) []
]
