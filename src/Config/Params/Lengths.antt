-- ===== src/Config/Params/Lengths.antt =====
-- The rows of `paramMap` agree with the parse functions that they name.
use device_wiresink_go.Prelude.{
  ℕ, ◌/◌, ◌%◌, ◌^◌, ◌==◌, ◌&&◌, ◌≡◌, ◌↔◌, refl, sym, ◌∙◌, arith, Bool, true, false, List, [], ◌∷◌,
  Option, none, some, length, Bytes, ==_iff,
}
use device_wiresink_go.Prelude.Outcome.{Result, ok, err}
use device_wiresink_go.Value.{Value}
use device_wiresink_go.Config.Decode.{parse_value}
use device_wiresink_go.Config.Params.{param_map, find_param, lookup_param_info}
use device_wiresink_go.Config.Params.Row.{
  ParamKey, ParamInfo, ParamRow, ParseFn, parse_float32, parse_uint8, parse_uint16, parse_uint32,
  parse_int16,
}

-- The number of bytes that a parse function wants, where it wants a certain number.
abbrev pub wanted : ParseFn → Option ℕ
wanted parse_float32 = some 4
wanted parse_uint8 = some 1
wanted parse_uint16 = some 2
wanted parse_uint32 = some 4
wanted parse_int16 = some 2
wanted _ = none

same_len : Option ℕ → Option ℕ → Bool
same_len none none = true
same_len (some a) (some b) = a == b
same_len _ _ = false

same_len→eq : (a b : Option ℕ) → same_len a b ≡ true → a ≡ b
unfolding same_len
same_len→eq none none h = refl
same_len→eq (some a) (some b) h = ground arith
same_len→eq none (some b) h = cc
same_len→eq (some a) none h = cc

all_agree : List ParamRow → Bool
unfolding same_len
all_agree [] = true
all_agree ((key, info) ∷ rest) = same_len info.byte_len (wanted info.parse) && all_agree rest

param_map_agrees : all_agree param_map ≡ true
unfolding all_agree param_map
param_map_agrees = refl

find_param_agrees :
    (rows : List ParamRow) (key : ParamKey) (info : ParamInfo)
    → all_agree rows ≡ true
    → find_param key rows ≡ some info
    → info.byte_len ≡ wanted info.parse
unfolding all_agree find_param
find_param_agrees [] key info h e = cc
find_param_agrees ((k, found) ∷ rest) key info h e =
    ground (arith, same_len→eq found.byte_len (wanted found.parse), find_param_agrees rest key info)

-- What `LookupParamInfo` says of the length of a value is what the parse function of the row wants.
lookup_param_info_agrees :
    (param_type : ℕ) (info : ParamInfo)
    → lookup_param_info param_type ≡ some info
    → info.byte_len ≡ wanted info.parse
unfolding lookup_param_info
lookup_param_info_agrees param_type info e =
    find_param_agrees param_map
      (record { feature_bits = param_type / 2 ^ 11 % 2 ^ 3; code_bits = param_type % 2 ^ 11 }) info
      param_map_agrees e

abbrev succeeds : Result Value → Bool
succeeds (ok v) = true
succeeds (err e) = false

-- A parse function that wants a certain number of bytes accepts exactly these.
parse_value-length :
    (fn : ParseFn) (n : ℕ) (bytes : Bytes)
    → wanted fn ≡ some n
    → succeeds (parse_value fn bytes) ≡ (length bytes == n)
unfolding parse_value
parse_value-length fn n [] e = ground arith
parse_value-length fn n (a ∷ []) e = ground arith
parse_value-length fn n (a ∷ b ∷ []) e = ground arith
parse_value-length fn n (a ∷ b ∷ c ∷ []) e = ground arith
parse_value-length fn n (a ∷ b ∷ c ∷ d ∷ []) e = ground arith
parse_value-length fn n (a ∷ b ∷ c ∷ d ∷ x ∷ rest) e = ground arith

succeeds_iff : (r : Result Value) → (succeeds r ≡ true) ↔ ((v : Value) × (r ≡ ok v))
succeeds_iff (ok v) = (λ _. (v, refl), λ _. refl)
succeeds_iff (err e) = (λ h. cc, λ (v, h). cc)

-- A value whose row of the table of parameter types names a length is decoded exactly when it has
-- that length.
pub lookup_param_info-byte_len :
    (param_type n : ℕ) (info : ParamInfo) (bytes : Bytes)
    → lookup_param_info param_type ≡ some info
    → info.byte_len ≡ some n
    → ((v : Value) × (parse_value info.parse bytes ≡ ok v)) ↔ (length bytes ≡ n)
lookup_param_info-byte_len param_type n info bytes e f =
    let accepted : succeeds (parse_value info.parse bytes) ≡ (length bytes == n) =
      parse_value-length info.parse n bytes
        (sym (lookup_param_info_agrees param_type info e) ∙ f) in
    let (forth, back) = succeeds_iff (parse_value info.parse bytes) in
    let (read, write) = ==_iff (length bytes) n in
    (λ v. read (sym accepted ∙ back v), λ h. forth (accepted ∙ write h))
