-- ===== src/Codegen/Simulation.antt =====
-- Straight-line bytecode against a stack machine: `Machine` runs the instructions on a stack of
-- values, as CPython's evaluation loop does, `Emitted` runs the SSA operations that the code
-- generator emits, and `Instructions` and `Program` compare the two.
pub mod Machine
pub mod Emitted
pub mod Ready
pub mod Shapes
pub mod Collect
pub mod Instructions
pub mod Program
