-- ===== src/Avr/Exec.antt =====
-- The handlers of `avr_cpu_run` of src/avr/avr_decode.c and their dispatch.
pub mod Outcome
pub mod Arith
pub mod Transfer
pub mod Branch
pub mod Fused
pub mod Dispatch
