-- ===== src/Rvdis.antt =====
-- tools/rvdis.py, the RV32IMA_Zicsr disassembler: its tables, the decoding of one instruction and the
-- walk over a buffer, with proofs about each in modules of their own.
pub mod Tables
pub mod Word
pub mod Extend
pub mod Flow
pub mod Arithmetic
pub mod Memory
pub mod System
pub mod Decode
pub mod Walk
pub mod Listing
pub mod Total
mod Tests
