-- ===== src/Bridge.antt =====
-- The table of the bridge between the machine and the host: src/io.
pub mod Table
pub mod Entries
pub mod RoundTrip
mod Examples
