-- ===== src/Runtime.antt =====
-- pystd/src: the runtime library, over an explicit heap of reference-counted objects. `Heap` is the
-- objects and `decref`, `State` the scopes with a monad, `Memory` and `Sequences` the operations;
-- the other children prove theorems about reference counts.
pub mod Heap
pub mod Balance
pub mod Release
pub mod State
pub mod Memory
pub mod Sequences
pub mod Variables
pub mod Subscripts
pub mod Creation
pub mod Append
pub mod Operators
pub mod Contracts
pub mod Numbers
pub mod Arithmetic
pub mod Unary
pub mod Division
pub mod Concat
pub mod Addition
pub mod Builtins
pub mod Arguments
pub mod Survivors
pub mod Answers
pub mod Range
pub mod Ranges
pub mod Scopes
pub mod Destroy
pub mod Calls
pub mod Callees
mod Tests
mod OperatorTests
mod CallTests
