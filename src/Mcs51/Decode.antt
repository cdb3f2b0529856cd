-- ===== src/Mcs51/Decode.antt =====
-- The instruction decoder of the 8051: src/mcs51/mcs51_decode.c. A handler returns its machine
-- cycles with the new state. A family of C functions for R0 to R7, or for @R0 and @R1, is one
-- definition over the register's number. A mask of ones is a remainder.
pub mod Flags
pub mod Arith
pub mod Logic
pub mod Move
pub mod Branch
pub mod Bit
pub mod Table
