-- ===== src/Codegen.antt =====
-- pycompile/src/conversion: the translation of bytecode to PyIR. `State` is the builder with
-- `ConversionMeta` and its monad; the next five files follow the five *_codegen.cpp files;
-- `Driver` and `Module` follow pyir_codegen.cpp. The other children prove theorems.
pub mod State
pub mod Builders
pub mod Logical
pub mod Memory
pub mod Control
pub mod Functions
pub mod Driver
pub mod Module
pub mod Deref
pub mod Targets
pub mod Simulation
pub mod Quirks
mod Tests
