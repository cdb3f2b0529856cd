-- ===== src/Avr/Sreg.antt =====
-- What the flags of the AVR say of an operation: the helpers and handlers of src/avr/avr_decode.c.
pub mod Carries
pub mod Fields
pub mod Arith
pub mod Sbci
