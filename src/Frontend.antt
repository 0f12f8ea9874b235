-- ===== src/Frontend.antt =====
-- pycompile/src/bytecode: from CPython's code objects to bytecode, and bytecode as text.
pub mod Opcodes
pub mod Python
pub mod Decode
pub mod Compile
pub mod Serialize
pub mod Tags
pub mod Written
mod Tests
