-- ===== src/Avr/Decode.antt =====
-- The decoder of the AVR: `avr_predecode` of src/avr/avr_decode.c.
pub mod Operands
pub mod Classify
pub mod Predecode
