-- ===== src/Mcs51/Alu.antt =====
-- The arithmetic of the instruction decoder: flags, decimal adjustment, products and rotations.
pub mod Psw
pub mod Add
pub mod Decimal
pub mod Product
