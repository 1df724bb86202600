-- ===== src/Driver.antt =====
-- internal/driver: the callbacks of the EdgeX device SDK.
pub mod Commands
pub mod Coerce
pub mod Devices
pub mod Listener
pub mod Readings
pub mod Reporting
pub mod Start
pub mod Health
