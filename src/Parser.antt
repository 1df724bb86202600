-- ===== src/Parser.antt =====
-- internal/frameparser: the parser of incoming frames.
pub mod Slices
pub mod Params
pub mod Sharding
pub mod Receive
pub mod Response
