-- ===== src/Config/Topo/Ending.antt =====
-- The loop over the nodes of `parseTopo` of internal/config/param_table_parser_data.go ends.
use device_wiresink_go.Prelude.{
  Bool, leb, ℕ, zero, suc, ◌+◌, ◌≤◌, ◌<◌, ◌==◌, ◌≡◌, ◌≢◌, subst, arith, true, false, List, [], ◌∷◌,
  ◌++◌, some, Option-cases, Bool-cases, inl, inr, length, length-drop, drop, Bytes, if◌then◌else◌,
}
use device_wiresink_go.Prelude.Outcome.{
  Error, out_of_fuel, missing_field, no_node_start, Result, ok, err, Result-cases,
}
use device_wiresink_go.Value.{NodeTopology}
use device_wiresink_go.Config.Topo.{
  looks_like_node, find_start, skip_comma, next_byte, read_node, next_node, topo_loop, parse_topo,
  ◌>>=◌,
}

-- What is left has at most `n` bytes, and no error is that of the fuel.
abbrev Within {ℓ} : {A : Type ℓ} → ℕ → (A → ℕ) → Result A → Type 0
Within n left (ok a) = left a ≤ n
Within n left (err e) = e ≢ out_of_fuel

>>=-Within :
    {A B : Type 0} (n m : ℕ) (left : A → ℕ) (later : B → ℕ) (r : Result A) (f : A → Result B)
    → Within n left r
    → ((a : A) → left a ≤ n → Within m later (f a))
    → Within m later (r >>= f)
>>=-Within n m left later (ok a) f h k = k a h
>>=-Within n m left later (err e) f h k = h

abbrev behind {ℓ} : {A : Type ℓ} → A × Bytes → ℕ
behind (a, rest) = length rest

skip_comma-Within :
    (which n : ℕ) (bytes : Bytes) → length bytes ≤ n + 1 → Within n length (skip_comma which bytes)
unfolding skip_comma
skip_comma-Within which n [] h = λ e. cc
skip_comma-Within which n (b ∷ rest) h = elim (Bool-cases (b == 0x2C)) [
  | inl comma ↦ rw (skip_comma, comma) (omega arith)
  | inr other ↦ rw (skip_comma, other) (λ e. cc)
]

next_byte-Within :
    (which n : ℕ) (bytes : Bytes) → length bytes ≤ n → Within n behind (next_byte which bytes)
unfolding next_byte
next_byte-Within which n [] h = λ e. cc
next_byte-Within which n (b ∷ rest) h = omega arith

read_node-Within :
    (n : ℕ) (bytes : Bytes) → length bytes ≤ n + 1 → Within n behind (read_node bytes)
unfolding read_node
read_node-Within n bytes h =
    >>=-Within n n length behind (skip_comma 1 (drop 6 bytes)) _
      (skip_comma-Within 1 n (drop 6 bytes) (omega (arith, length-drop 6 bytes)))
      (λ after_eid h1.
        >>=-Within n n behind behind (next_byte 1 after_eid) _ (next_byte-Within 1 n after_eid h1)
          (λ (state_byte, after_state) h2.
            >>=-Within n n length behind (skip_comma 2 after_state) _
              (skip_comma-Within 2 n after_state (omega arith))
              (λ at_type h3.
                >>=-Within n n behind behind (next_byte 2 at_type) _
                  (next_byte-Within 2 n at_type h3)
                  (λ (type_byte, after_type) h4.
                    >>=-Within n n length behind (skip_comma 3 after_type) _
                      (skip_comma-Within 3 n after_type (omega arith))
                      (λ at_parent h5. ends (leb 6 (length at_parent)) _ at_parent h5)))))
  where
    ends :
        (b : Bool) (node : NodeTopology) (at_parent : Bytes)
        → length at_parent ≤ n
        → Within n behind (if b then ok (node, drop 6 at_parent) else err (missing_field 3))
    ends true node at_parent k = omega (arith, length-drop 6 at_parent)
    ends false node at_parent k = λ e. cc

length-next_node : (bytes rest : Bytes) → next_node bytes ≡ some rest → length rest ≤ length bytes
unfolding next_node
length-next_node [] rest e = cc
length-next_node (b ∷ bytes) rest e = ground arith

length-find_start : (bytes : Bytes) → length (find_start bytes) ≤ length bytes
unfolding find_start
length-find_start [] = omega arith
length-find_start (b ∷ bytes) = ground (arith, length-find_start bytes)

long_enough : (bytes : Bytes) → looks_like_node bytes ≡ true → 16 ≤ length bytes
unfolding looks_like_node
long_enough bytes h = ground arith

err-injective : {A : Type 0} (p q : Error) → ◌≡◌ {A = Result A} (err p) (err q) → p ≡ q
err-injective p q e = cc

topo_loop-ends :
    (fuel : ℕ) (bytes : Bytes) (nodes : List NodeTopology)
    → 0 < fuel
    → length bytes ≤ fuel
    → topo_loop fuel bytes nodes ≢ err out_of_fuel
unfolding topo_loop
topo_loop-ends zero bytes nodes h k = absurd (omega arith)
topo_loop-ends (suc fuel) bytes nodes h k = elim (Bool-cases (looks_like_node bytes)) [
  | inr other ↦ rw (topo_loop, other) (λ e. cc)
  | inl node ↦
      let enough = long_enough bytes node in
      elim (Result-cases (read_node bytes)) [
        | inr (problem, e) ↦
            rw (topo_loop, node, e)
              (λ q.
                subst (Within fuel behind) e (read_node-Within fuel bytes (omega arith))
                  (err-injective problem out_of_fuel q))
        | inl ((read, after), e) ↦ elim (Option-cases (next_node after)) [
          | inl last ↦ rw (topo_loop, node, e, last) (λ q. cc)
          | inr (rest, more) ↦
              let shorter : length after ≤ fuel =
                subst (Within fuel behind) e (read_node-Within fuel bytes (omega arith)) in
              rw (topo_loop, node, e, more)
                (topo_loop-ends fuel rest (nodes ++ read ∷ []) (omega arith)
                  (omega (arith, length-next_node after rest more)))
        ]
      ]
]

-- `parseTopo` ends on all bytes.
pub parse_topo-ends : (bytes : Bytes) → parse_topo bytes ≢ err out_of_fuel
unfolding parse_topo
parse_topo-ends bytes = by_start (find_start bytes) (length-find_start bytes)
  where
    by_start :
        (found : Bytes)
        → length found ≤ length bytes
        → (elim found as (λ x. Result (List NodeTopology)) [
          | [] ↦ err no_node_start
          | b ∷ rest ↦ topo_loop (length bytes) (b ∷ rest) []
        ])
          ≢ err out_of_fuel
    by_start [] h = λ e. cc
    by_start (b ∷ rest) h = topo_loop-ends (length bytes) (b ∷ rest) [] (omega arith) h
