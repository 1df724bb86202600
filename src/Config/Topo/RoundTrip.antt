-- ===== src/Config/Topo/RoundTrip.antt =====
-- A list of nodes in the format of `parseTopo` is decoded to these nodes.
use device_wiresink_go.Prelude.{
  ℕ, zero, suc, ◌<◌, ◌≡◌, ap, ◌∙◌, arith, true, List, [], ◌∷◌, ◌++◌, map, none, some, append_assoc,
  length, Bytes,
}
use device_wiresink_go.Prelude.Outcome.{ok}
use device_wiresink_go.Value.{NodeTopology}
use device_wiresink_go.Hex.{encode_upper, itoa}
use device_wiresink_go.Config.Topo.{
  looks_like_node, find_start, read_node, next_node, topo_loop, parse_topo,
}

-- What a sink reports of a node: two EIDs of six bytes, a state and a type.
pub record RawNode : Type 0 where
  pub e0 : ℕ
  pub e1 : ℕ
  pub e2 : ℕ
  pub e3 : ℕ
  pub e4 : ℕ
  pub e5 : ℕ
  pub state : ℕ
  pub kind : ℕ
  pub p0 : ℕ
  pub p1 : ℕ
  pub p2 : ℕ
  pub p3 : ℕ
  pub p4 : ℕ
  pub p5 : ℕ

abbrev pub eid_bytes : RawNode → Bytes
eid_bytes r = r.e0 ∷ r.e1 ∷ r.e2 ∷ r.e3 ∷ r.e4 ∷ r.e5 ∷ []

abbrev pub parent_bytes : RawNode → Bytes
parent_bytes r = r.p0 ∷ r.p1 ∷ r.p2 ∷ r.p3 ∷ r.p4 ∷ r.p5 ∷ []

-- `[6B EID][,][1B state][,][1B type][,][6B parent]`
abbrev pub node_bytes : RawNode → Bytes
node_bytes r = eid_bytes r ++ 0x2C ∷ r.state ∷ 0x2C ∷ r.kind ∷ 0x2C ∷ parent_bytes r

abbrev pub decoded : RawNode → NodeTopology
decoded r = record {
  eid = encode_upper (eid_bytes r);
  type_code = itoa r.kind;
  state = itoa r.state;
  parent = encode_upper (parent_bytes r);
}

-- Nodes joined by `$`.
abbrev pub joined : RawNode → List RawNode → Bytes
joined r [] = node_bytes r
joined r (s ∷ rest) = node_bytes r ++ 0x24 ∷ joined s rest

looks_like_node-node_bytes :
    (r : RawNode) (rest : Bytes) → looks_like_node (node_bytes r ++ rest) ≡ true
unfolding looks_like_node
looks_like_node-node_bytes r rest = ground arith

read_node-node_bytes :
    (r : RawNode) (rest : Bytes) → read_node (node_bytes r ++ rest) ≡ ok (decoded r, rest)
unfolding read_node
read_node-node_bytes r rest = ground arith

length-joined : (r : RawNode) (rest : List RawNode) → length rest < length (joined r rest)
length-joined r [] = omega arith
length-joined r (s ∷ rest) = omega (arith, length-joined s rest)

find_start-joined : (r : RawNode) (rest : List RawNode) → find_start (joined r rest) ≡ joined r rest
unfolding find_start
find_start-joined r [] = rw (looks_like_node-node_bytes r [])
find_start-joined r (s ∷ rest) = rw (looks_like_node-node_bytes r (0x24 ∷ joined s rest))

topo_loop_round :
    (fuel : ℕ) (bytes after : Bytes) (node : NodeTopology) (nodes : List NodeTopology)
    → looks_like_node bytes ≡ true
    → read_node bytes ≡ ok (node, after)
    → topo_loop (suc fuel) bytes nodes ≡ elim (next_node after) [
      | none ↦ ok (nodes ++ node ∷ [])
      | some rest ↦ topo_loop fuel rest (nodes ++ node ∷ [])
    ]
unfolding topo_loop
topo_loop_round fuel bytes after node nodes looks reads = ground arith

topo_loop-joined :
    (fuel : ℕ) (r : RawNode) (rest : List RawNode) (nodes : List NodeTopology)
    → length rest < fuel
    → topo_loop fuel (joined r rest) nodes ≡ ok (nodes ++ map decoded (r ∷ rest))
unfolding next_node
topo_loop-joined zero r rest nodes h = absurd (omega arith)
topo_loop-joined (suc fuel) r [] nodes h =
    topo_loop_round fuel (node_bytes r ++ []) [] (decoded r) nodes (looks_like_node-node_bytes r [])
      (read_node-node_bytes r [])
topo_loop-joined (suc fuel) r (s ∷ rest) nodes h =
    topo_loop_round fuel (node_bytes r ++ 0x24 ∷ joined s rest) (0x24 ∷ joined s rest) (decoded r)
      nodes (looks_like_node-node_bytes r (0x24 ∷ joined s rest))
      (read_node-node_bytes r (0x24 ∷ joined s rest))
    ∙ topo_loop-joined fuel s rest (nodes ++ decoded r ∷ []) (omega arith)
    ∙ ap ok (append_assoc nodes (decoded r ∷ []) (map decoded (s ∷ rest)))

parse_topo_found :
    (bytes rest : Bytes) (b : ℕ)
    → find_start bytes ≡ b ∷ rest
    → parse_topo bytes ≡ topo_loop (length bytes) (b ∷ rest) []
unfolding parse_topo
parse_topo_found bytes rest b found = ground arith

-- Nodes in the agreed format, joined by `$`, are decoded to the same nodes in the same order.
pub parse_topo-joined :
    (r : RawNode) (rest : List RawNode) → parse_topo (joined r rest) ≡ ok (map decoded (r ∷ rest))
parse_topo-joined r [] =
    parse_topo_found (joined r []) _ r.e0 (find_start-joined r [])
    ∙ topo_loop-joined _ r [] [] (length-joined r [])
parse_topo-joined r (s ∷ rest) =
    parse_topo_found (joined r (s ∷ rest)) _ r.e0 (find_start-joined r (s ∷ rest))
    ∙ topo_loop-joined _ r (s ∷ rest) [] (length-joined r (s ∷ rest))
