-- ===== src/Lowering/Arrays.antt =====
-- pycompile/src/lowering/builder_lowering.cpp and `CallLowering` of function_lowering.cpp: operands
-- passed in an array on the stack.
use pycompile.Base.{ℕ, suc, true, List, [], ◌∷◌, String, length}
use pycompile.Base.Int.{pos}
use pycompile.Pyir.{Value}
use pycompile.Lowering.Rewriter.{
  LlvmType, FnType, LlvmOp, Build, ◌>>=◌, ◌>>◌, pure, create, create_void, get_or_insert_runtime_fn,
  Rewritten, call_fn,
}

-- `store` of the value into the array at an index.
unfoldable pub store_at : Value → ℕ → Value → Build (Unit {0})
unfolding create create_void
store_at array i v = do
  idx ← create (LlvmOp.const_i64 (pos i))
  gep ← create (LlvmOp.gep array idx)
  create_void (LlvmOp.store v gep)

-- The loop over the operands, from index `i` on.
unfoldable pub store_all : Value → ℕ → List Value → Build (Unit {0})
unfolding store_at
store_all array i [] = pure tt
store_all array i (v ∷ vs) = do store_at array i v; store_all array (suc i) vs

unfoldable pub new_array : ℕ → Build Value
unfolding create
new_array count = do size ← create (LlvmOp.const_i64 (pos 1)); create (LlvmOp.alloca count size)

-- `PyObj* f(PyObj** parts, int64_t count)`
abbrev pub array_fn : FnType
array_fn = record { returns = LlvmType.ptr; takes = LlvmType.ptr ∷ LlvmType.i64 ∷ [] }

unfoldable pub build_array_type : String → List Value → Build Rewritten
unfolding new_array store_all get_or_insert_runtime_fn create
build_array_type func operands = do
  array ← new_array (length operands)
  store_all array 0 operands
  get_or_insert_runtime_fn func array_fn
  count ← create (LlvmOp.const_i64 (pos (length operands)))
  call_fn true func (array ∷ count ∷ [])

-- The array of the arguments of a call; a null pointer for none.
abbrev pub args_array : List Value → Build Value
args_array [] = create LlvmOp.zero_ptr
args_array (v ∷ vs) = do array ← new_array (suc (length vs)); store_all array 0 (v ∷ vs); pure array

abbrev pub call_runtime_fn : FnType
call_runtime_fn = record {
  returns = LlvmType.ptr;
  takes = LlvmType.ptr ∷ LlvmType.ptr ∷ LlvmType.i64 ∷ [];
}

unfoldable pub lower_call : Value → List Value → Build Rewritten
unfolding get_or_insert_runtime_fn new_array store_all create
lower_call callee args = do
  get_or_insert_runtime_fn "pyir_call" call_runtime_fn
  array ← args_array args
  argc ← create (LlvmOp.const_i64 (pos (length args)))
  call_fn true "pyir_call" (callee ∷ array ∷ argc ∷ [])
