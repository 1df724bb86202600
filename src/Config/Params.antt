-- ===== src/Config/Params.antt =====
-- `paramMap` and `LookupParamInfo` of internal/config/param_table_parser_data.go.
pub mod Row
mod General
mod Substation
mod Auxiliary
pub mod Lengths
pub mod Names
use General.{general_params, transmission_params}
use Substation.{substation_params}
use Auxiliary.{auxiliary_params}
use Row.{ParamKey, ParamInfo, ParamRow}
use device_wiresink_go.Prelude.{
  ℕ, ◌/◌, ◌%◌, ◌^◌, ◌==◌, ◌&&◌, List, [], ◌∷◌, ◌++◌, Option, none, some, if◌then◌else◌,
}

unfoldable pub param_map : List ParamRow
param_map = general_params ++ (transmission_params ++ (substation_params ++ auxiliary_params))

-- A read of the map.
unfoldable pub find_param : ParamKey → List ParamRow → Option ParamInfo
find_param key [] = none
find_param key ((k, info) ∷ rest) =
    if k.feature_bits == key.feature_bits && k.code_bits == key.code_bits
    then some info
    else find_param key rest

-- `param_type` is the type code of 14 bits.
unfoldable pub lookup_param_info : ℕ → Option ParamInfo
unfolding find_param param_map
lookup_param_info param_type =
    find_param
      (record { feature_bits = param_type / 2 ^ 11 % 2 ^ 3; code_bits = param_type % 2 ^ 11 })
      param_map
