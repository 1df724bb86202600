-- ===== src/Config.antt =====
-- internal/config: the value table, the map from sensor to device, the parameter tables and the
-- decoders of values.
pub mod Values
pub mod Mapping
pub mod Params
pub mod ParamTable
pub mod Decode
pub mod Topo
pub mod Defaults
pub mod Tool
