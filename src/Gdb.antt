-- ===== src/Gdb.antt =====
-- The stub for the remote protocol of GDB: src/gdb.
pub mod Stub
pub mod Packets
pub mod Poll
pub mod Target
pub mod TargetAvr
pub mod Host
pub mod Digits
pub mod Breakpoints
pub mod Bounds
pub mod Framing
pub mod Running
pub mod Registers
mod Examples
