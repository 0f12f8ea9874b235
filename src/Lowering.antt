-- ===== src/Lowering.antt =====
-- pycompile/src/lowering: PyIR operations rewritten to the LLVM dialect. `Rewriter` is the state of
-- the rewriting, `Arrays`, `Constants` and `Patterns` the conversion patterns, `Machine` a machine
-- that runs what they emit; the other children prove what the emitted code calls.
pub mod Rewriter
pub mod Arrays
pub mod Constants
pub mod Single
pub mod Patterns
pub mod Machine
pub mod Stores
pub mod Calls
pub mod Filled
pub mod Passed
pub mod Meaning
pub mod Values
pub mod Refinement
pub mod Branches
mod Tests
