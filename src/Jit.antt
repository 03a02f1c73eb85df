-- ===== src/Jit.antt =====
-- src/vm/jit: the parts of the just-in-time compiler.
pub mod CodeBuffer
pub mod Assembler
pub mod RegisterCache
pub mod A64
pub mod Utilities
pub mod Aarch64
