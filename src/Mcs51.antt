-- ===== src/Mcs51.antt =====
-- The MCS-51 (8051) virtual machine: src/mcs51.
pub mod Cpu
pub mod Uart
pub mod Gpio
pub mod Memory
pub mod Decode
pub mod Timer
pub mod Irq
pub mod Step
pub mod Evolve
pub mod Alu
pub mod Load
pub mod BitMemory
pub mod Calls
pub mod Priority
pub mod Requests
pub mod Ticks
pub mod Steps
pub mod Waking
pub mod Serial
mod Examples
