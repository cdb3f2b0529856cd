-- ===== src/Avr/Fusion.antt =====
-- The fused instructions of src/avr/avr_decode.c against the instructions that they stand for.
pub mod Pairs
pub mod Delay
pub mod Delay2
