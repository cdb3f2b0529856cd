-- ===== src/Firmware.antt =====
-- The firmware loaders of src/util/ihex.c.
pub mod Files
pub mod Hex
pub mod Ucfm
pub mod RoundTrip
pub mod Records
pub mod Detect
mod Examples
