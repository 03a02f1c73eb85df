-- ===== src/Tests.antt =====
-- Runs of the model on concrete inputs, and the theorems at inputs that meet their hypotheses.
pub mod Samples
pub mod Decoding
pub mod Storage
pub mod Machine
pub mod Moves
pub mod Turns
pub mod Arithmetic
pub mod Images
pub mod Buffers
pub mod Host
pub mod Caches
pub mod Starts
pub mod Computer
pub mod Generated
