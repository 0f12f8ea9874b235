-- ===== src/Lib.antt =====
-- pycompile compiles Python to native code. CPython disassembles a program; the code generator
-- (pycompile/src/conversion) simulates the operand stack of the bytecode and emits PyIR, an MLIR
-- dialect in SSA form; PyIR is lowered to calls of a runtime library (pystd/src) whose objects are
-- reference counted.
--
-- Files:
-- - Base: lists, options, numbers, integers and association lists that the other files share.
-- - Bytecode: pycompile/src/bytecode/bytecode.hpp and python_opcodes.hpp, the data that the front
--   end hands on.
-- - Frontend: pycompile/src/bytecode, from CPython's code objects to bytecode. Frontend/Python is the
--   interface of the C API, Frontend/Opcodes python_opcodes.cpp, Frontend/Decode and Frontend/Compile
--   bytecode.cpp, Frontend/Serialize serialize_bytecode.cpp. Frontend/Tags and Written prove
--   theorems about them.
-- - Pyir: pycompile/src/pyir/pyir.td, the operations, and the blocks and functions they stand in.
-- - Codegen: pycompile/src/conversion. Codegen/State is `ConversionMeta` with the builder;
--   Codegen/Builders, Logical, Memory, Control and Functions are the five *_codegen.cpp files, one
--   function for each C++ function (buildListCodegen is build_list_codegen); Codegen/Driver is
--   buildMLIRInstruction, and Codegen/Module is buildMLIRModule and generatePyIR. Codegen/Deref,
--   Codegen/Targets, Codegen/Quirks and Codegen/Simulation prove theorems about them.
-- - Lowering: pycompile/src/lowering. Lowering/Rewriter is pyir_conversion_utils.cpp with the LLVM
--   operations, the symbols of the module and the rewriter; Lowering/Arrays, Constants, Single and
--   Patterns are the *_lowering.cpp files, one function for each matchAndRewrite, and `lower` is the list
--   of patterns in pyir_lowering.cpp. Lowering/Machine runs LLVM operations over any runtime library.
--   Lowering/Stores, Calls, Filled, Passed, Meaning, Values, Refinement and Branches prove
--   theorems about the patterns.
-- - Runtime: pystd/src. Runtime/Heap is PyObj with its counts and the destructors, Runtime/State
--   runtime_state.hpp and runtime_errors.hpp with a monad, Runtime/Memory memory_runtime.cpp, and
--   Runtime/Sequences the subscripts and appending of py_list.cpp and py_tuple.cpp with their callers
--   in logical_runtime.cpp and builder_runtime.cpp; Runtime/Operators is the arithmetic, the order of
--   numbers and the concatenations of logical_runtime.cpp, over an interface of doubles;
--   Runtime/Builtins is a part of builtin_runtime.cpp with decrefArgs of runtime_util.cpp, and
--   Runtime/Calls the calls of function_runtime.cpp. Runtime/Balance, Release, Variables, Creation,
--   Append, Subscripts, Contracts, Answers, Numbers, Arithmetic, Unary, Concat, Addition, Arguments,
--   Survivors, Ranges and Callees prove theorems about the counts and results, Runtime/Division about `//` and `%`, Runtime/Range about the loop of
--   range(), and Runtime/Scopes about the scopes. Runtime/Destroy is pyir_destroyModule, with its theorem;
--   a pointer that it sets to null is left out of the scope.
--
-- A C++ exception and undefined behaviour are values of an error type, and the state of the builder
-- is passed on explicitly. A `std::vector` that serves as a stack is a list with the top first.
-- Structural recursion on the instructions replaces the loops. Two functions are on fuel: for `release`
-- as many rounds are enough as there are references to release and references held in the heap, and
-- for the loop of range() one more than the end is after the start.
--
-- A reference count is kept as the 32 bits of std::atomic<int32_t>: incref wraps around, and decref
-- treats 0 and the negative patterns alike. Exact counts are at most 2^31 - 1, and the theorems about
-- functions that add references assume that there is room for them.
--
-- The stack machine of Codegen/Simulation has the effects that CPython 3.14 documents: LOAD_GLOBAL and
-- LOAD_ATTR push a null only where argrepr says so, and the name of a variable of a closure is an
-- argument. The theorems leave out the instructions for which the code does something else.
--
-- The disassembly counts the depths that are left, 17 at the start, as NESTED_FUNCTION_DEPTH says.
--
-- A call of the runtime is one step of the machine for LLVM operations, which does not model what the
-- called function writes into an array of arguments. The symbol of a string constant is named by
-- std::hash, which is a parameter. A double is its bit pattern, and its operations are a parameter.
--
-- The interface of the C API returns an option where the code uses a null pointer without a test. The
-- patterns of MLIR's own library, which the list of patterns takes over for branches and returns, are a
-- parameter of `lower`.
--
-- Not modelled: MLIR's conversion driver and verifier, the export of LLVM code and the linker, the
-- command line and CPython itself; in the runtime, equality and hashing, sets and dicts, iterators and
-- the other builtin functions. What a called function does is a parameter of a call.
-- decodeExceptionTable is not modelled, since its only call is commented out.
pub mod Base
pub mod Bytecode
pub mod Frontend
pub mod Pyir
pub mod Codegen
pub mod Lowering
pub mod Runtime
