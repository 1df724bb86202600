-- ===== src/Config/Params/Names.antt =====
-- The names of `paramMap` of internal/config/param_table_parser_data.go, under which the value table
-- keeps what was decoded.
use device_wiresink_go.Prelude.{
  ℕ, ◌/◌, ◌%◌, ◌^◌, ◌<◌, ◌==◌, ◌&&◌, ◌||◌, not, ◌≡◌, ◌⊎◌, inl, inr, refl, sym, ◌∙◌, ap, arith, Bool,
  true, Bool-cases, List, [], ◌∷◌, some, Text, codes, text_eq, text_eq_iff,
}
use device_wiresink_go.Config.Params.{param_map, find_param, lookup_param_info}
use device_wiresink_go.Config.Params.Row.{ParamKey, ParamInfo, ParamRow}

-- The one name that two rows have.
abbrev pub shared_name : Text
shared_name = codes "Nitrogen"

apart : Text → List ParamRow → Bool
apart name [] = true
apart name ((key, info) ∷ rest) =
    (not (text_eq name info.name) || text_eq name shared_name) && apart name rest

all_apart : List ParamRow → Bool
unfolding apart
all_apart [] = true
all_apart ((key, info) ∷ rest) = apart info.name rest && all_apart rest

param_map_apart : all_apart param_map ≡ true
unfolding all_apart param_map text_eq
param_map_apart = refl

find_param-apart :
    (rows : List ParamRow) (name : Text) (key : ParamKey) (info : ParamInfo)
    → apart name rows ≡ true
    → find_param key rows ≡ some info
    → name ≡ info.name
    → name ≡ shared_name
unfolding apart find_param
find_param-apart [] name key info h e same = cc
find_param-apart ((k, found) ∷ rest) name key info h e same = ground (
  arith,
  find_param-apart rest name key info,
  text_eq_iff name found.name,
  text_eq_iff name shared_name,
)

find_param-names :
    (rows : List ParamRow) (k1 k2 : ParamKey) (i1 i2 : ParamInfo)
    → all_apart rows ≡ true
    → find_param k1 rows ≡ some i1
    → find_param k2 rows ≡ some i2
    → i1.name ≡ i2.name
    → ((k1.feature_bits ≡ k2.feature_bits) × (k1.code_bits ≡ k2.code_bits))
      ⊎ (i1.name ≡ shared_name)
unfolding all_apart find_param
find_param-names [] k1 k2 i1 i2 h e f same = cc
find_param-names ((k, found) ∷ rest) k1 k2 i1 i2 h e f same =
    elim (Bool-cases (k.feature_bits == k1.feature_bits && k.code_bits == k1.code_bits)) [
      | inl here1 ↦
          elim (Bool-cases (k.feature_bits == k2.feature_bits && k.code_bits == k2.code_bits)) [
            | inl here2 ↦ inl (ground arith)
            | inr later2 ↦
                let first : found ≡ i1 = ground arith in
                let name : found.name ≡ i1.name = ap (λ (i : ParamInfo). i.name) first in
                inr (
                  sym name
                  ∙ find_param-apart rest found.name k2 i2 (ground arith) (ground arith)
                      (name ∙ same))
          ]
      | inr later1 ↦
          elim (Bool-cases (k.feature_bits == k2.feature_bits && k.code_bits == k2.code_bits)) [
            | inl here2 ↦
                let first : found ≡ i2 = ground arith in
                let name : found.name ≡ i2.name = ap (λ (i : ParamInfo). i.name) first in
                inr (
                  same
                  ∙ sym name
                  ∙ find_param-apart rest found.name k1 i1 (ground arith) (ground arith)
                      (name ∙ sym same))
            | inr later2 ↦
                find_param-names rest k1 k2 i1 i2 (ground arith) (ground arith) (ground arith) same
          ]
    ]

-- Two parameter types of 14 bits that the table knows have the same name only if they are the same
-- type or the name is `Nitrogen`: values of different types do not overwrite each other in the
-- value table, but for this name.
pub lookup_param_info-name :
    (t1 t2 : ℕ) (i1 i2 : ParamInfo)
    → t1 < 2 ^ 14
    → t2 < 2 ^ 14
    → lookup_param_info t1 ≡ some i1
    → lookup_param_info t2 ≡ some i2
    → i1.name ≡ i2.name
    → (t1 ≡ t2) ⊎ (i1.name ≡ shared_name)
unfolding lookup_param_info
lookup_param_info-name t1 t2 i1 i2 small1 small2 e f same =
    elim (find_param-names param_map
      (record { feature_bits = t1 / 2 ^ 11 % 2 ^ 3; code_bits = t1 % 2 ^ 11 })
      (record { feature_bits = t2 / 2 ^ 11 % 2 ^ 3; code_bits = t2 % 2 ^ 11 }) i1 i2 param_map_apart
      e f same) [ inl (features, code_bits) ↦ inl (omega arith) | inr shared ↦ inr shared ]
