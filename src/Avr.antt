-- ===== src/Avr.antt =====
-- The AVR core: src/avr.
pub mod Cpu
pub mod Timer
pub mod Gpio
pub mod Uart
pub mod Memory
pub mod Flags
pub mod Exec
pub mod Decode
pub mod Irq
pub mod Run
pub mod Sreg
pub mod Fusion
pub mod Calls
pub mod Variants
pub mod Prescaler
pub mod Vectors
pub mod Twi
pub mod TwiOps
pub mod TwiSlave
pub mod HostOps
pub mod TwiTiming
pub mod TwiSteps
pub mod TwiTransfer
mod Examples
