-- ===== src/Lowering/Patterns.antt =====
-- pycompile/src/lowering/logical_lowering.cpp, function_lowering.cpp, control_flow_lowering.cpp and
-- the rest of memory_lowering.cpp and builder_lowering.cpp: the pattern of each operation, with the
-- list of pyir_lowering.cpp.
use text.Mathlib.Text.{◌==◌ as str_eq}
use Prim.Native.String.{◌++◌ as str_append, len, slice, find}
use pycompile.Base.{
  ℕ, ◌-◌, ◌==◌, leb, true, false, List, [], ◌∷◌, Option, none, some, String, if◌then◌else◌,
}
use pycompile.Base.Int.{pos}
use pycompile.Pyir.{Value, OpName, Successor}
use pycompile.Lowering.Rewriter.{
  LlvmType, LlvmOp, Built, Build, ◌>>=◌, ◌>>◌, pure, create, create_void, get_or_insert_runtime_fn,
  get_or_insert_string_constant, Rewritten, replaced, erased, call_fn, insert_runtime_func,
}
use pycompile.Lowering.Arrays.{build_array_type, lower_call}
use pycompile.Lowering.Constants.{
  name_symbol, one_ptr, insert_load_runtime_func, insert_store_runtime_func, lower_init_module,
  Hash, lower_load_const,
}
use pycompile.Lowering.Single.{
  lower_destroy_module, lower_load_fast, lower_load_fast_and_clear, lower_store_fast,
  lower_load_name, lower_store_name, lower_push_scope, lower_pop_scope, lower_to_bool,
  lower_unary_invert, lower_unary_negative, lower_unary_not, lower_format_simple,
  lower_build_string, lower_build_list, lower_list_extend, lower_list_append, lower_build_set,
  lower_set_update, lower_set_add, lower_build_map, lower_map_add, lower_get_iter, lower_pop_iter,
}

abbrev failed : Build Rewritten
failed r = Built.failure

abbrev out_of_range : Build Rewritten
out_of_range r = Built.undefined

-- A table from operators to runtime functions.
abbrev find_fn : String → List (String × String) → Option String
find_fn op [] = none
find_fn op ((name, fn) ∷ rest) = if str_eq name op then some fn else find_fn op rest

unfoldable pub binary_fn : String → Option String
binary_fn op = find_fn op (
    ("+", "pyir_add")
    ∷ ("-", "pyir_sub")
    ∷ ("*", "pyir_mul")
    ∷ ("/", "pyir_div")
    ∷ ("^", "pyir_xor")
    ∷ ("//", "pyir_floorDiv")
    ∷ ("**", "pyir_exp")
    ∷ ("%", "pyir_mod")
    ∷ ("[]", "pyir_idx")
    ∷ ("|", "pyir_pipe")
    ∷ ("&", "pyir_ampersand")
    ∷ ("+=", "pyir_add")
    ∷ ("-=", "pyir_sub")
    ∷ ("*=", "pyir_mul")
    ∷ ("/=", "pyir_div")
    ∷ ("^=", "pyir_xor")
    ∷ ("//=", "pyir_floorDiv")
    ∷ ("**=", "pyir_exp")
    ∷ ("%=", "pyir_mod")
    ∷ ("|=", "pyir_pipe")
    ∷ ("&=", "pyir_ampersand")
    ∷ [])

-- "bool(==)" is read as "==". `pop_back` of an empty string is undefined.
unfoldable pub stripped : String → Option String
stripped op =
    if leb (find op "bool(") (len op)
    then if len op == 5 then none else some (slice op 5 (len op - 1))
    else some op

unfoldable pub compare_fn : String → Option String
compare_fn op = find_fn op (
    ("==", "pyir_eq")
    ∷ ("!=", "pyir_ne")
    ∷ ("<", "pyir_lt")
    ∷ ("<=", "pyir_le")
    ∷ (">", "pyir_gt")
    ∷ (">=", "pyir_ge")
    ∷ [])

unfoldable pub contains_fn : String → Option String
contains_fn op = find_fn op (("in", "pyir_in") ∷ [])

-- An operator that is not in the table fails.
abbrev pub lower_operator : Option String → List Value → Build Rewritten
lower_operator none operands = failed
lower_operator (some fn) operands = insert_runtime_func fn true operands

abbrev pub lower_compare : Option String → List Value → Build Rewritten
lower_compare none operands = out_of_range
lower_compare (some op) operands = lower_operator (compare_fn op) operands

unfoldable pub lower_is_truthy : Value → Build Rewritten
unfolding get_or_insert_runtime_fn create
lower_is_truthy val = do
  get_or_insert_runtime_fn "pyir_isTruthy"
      (record { returns = LlvmType.i8; takes = LlvmType.ptr ∷ [] })
  v ← create (LlvmOp.call "pyir_isTruthy" (val ∷ []))
  bit ← create (LlvmOp.trunc v)
  pure (replaced bit)

unfoldable pub lower_load_arg : ℕ → Value → Build Rewritten
unfolding create
lower_load_arg index args = do
  idx ← create (LlvmOp.const_i64 (pos index))
  gep ← create (LlvmOp.gep args idx)
  v ← create (LlvmOp.load gep)
  pure (replaced v)

unfoldable pub lower_load_attr : String → Value → Build Rewritten
unfolding get_or_insert_runtime_fn get_or_insert_string_constant create
lower_load_attr name obj = do
  get_or_insert_runtime_fn "pyir_loadAttr"
      (record { returns = LlvmType.ptr; takes = LlvmType.ptr ∷ LlvmType.ptr ∷ [] })
  str ← get_or_insert_string_constant (name_symbol name) name
  call_fn true "pyir_loadAttr" (obj ∷ str ∷ [])

unfoldable pub lower_store_subscr : Value → Value → Value → Build Rewritten
unfolding get_or_insert_runtime_fn create_void
lower_store_subscr container idx value = do
  get_or_insert_runtime_fn "pyir_storeSubscr"
      (record { returns = LlvmType.void; takes = LlvmType.ptr ∷ LlvmType.ptr ∷ LlvmType.ptr ∷ [] })
  call_fn false "pyir_storeSubscr" (container ∷ idx ∷ value ∷ [])

unfoldable pub lower_make_function : String → Build Rewritten
unfolding get_or_insert_runtime_fn get_or_insert_string_constant create
lower_make_function fn_name = do
  get_or_insert_runtime_fn "pyir_makeFunction"
      (record { returns = LlvmType.ptr; takes = LlvmType.ptr ∷ LlvmType.ptr ∷ [] })
  fn_ptr ← create (LlvmOp.address_of fn_name)
  str ← get_or_insert_string_constant (str_append "__pyir_str_fn_" fn_name) fn_name
  call_fn true "pyir_makeFunction" (str ∷ fn_ptr ∷ [])

-- The next value goes to the body; a null pointer leaves the loop.
unfoldable pub lower_for_iter : Value → List Value → ℕ → ℕ → Build Rewritten
unfolding get_or_insert_runtime_fn create create_void
lower_for_iter iterator exit_args body exit = do
  get_or_insert_runtime_fn "pyir_forIter" one_ptr
  next ← create (LlvmOp.call "pyir_forIter" (iterator ∷ []))
  null ← create LlvmOp.zero_ptr
  cond ← create (LlvmOp.icmp_ne next null)
  create_void (
      LlvmOp.cond_br cond (record { block = body; args = next ∷ [] })
        (record { block = exit; args = exit_args }))
  pure erased

unfoldable pub lower_push_null : Build Rewritten
unfolding create
lower_push_null = do v ← create LlvmOp.zero_ptr; pure (replaced v)

unfoldable pub lower_return_value : Value → Build Rewritten
unfolding create_void
lower_return_value v = do create_void (LlvmOp.return_op v); pure erased

-- No operation that the code generator makes is a `pop_top`.
unfoldable pub lower_pop_top : List Value → Build Rewritten
unfolding insert_runtime_func
lower_pop_top operands = insert_runtime_func "pyir_decref" false operands

-- The patterns of MLIR for the operations of other dialects.
abbrev pub Library : Type 0
Library = OpName → List Value → List Successor → Build Rewritten

-- The pattern of an operation, for its operands. `load_deref` and `store_deref` have none, and the
-- operations of other dialects have those of the library.
unfoldable pub lower : Library → Hash → OpName → List Value → List Successor → Build Rewritten
unfolding lower_init_module insert_load_runtime_func insert_store_runtime_func insert_runtime_func
    lower_load_const lower_load_arg lower_load_attr lower_store_subscr lower_call
    lower_make_function lower_is_truthy lower_for_iter lower_push_null lower_return_value
    build_array_type binary_fn stripped compare_fn contains_fn
lower library hash (OpName.init_module file name) operands succs = lower_init_module file name
lower library hash OpName.destroy_module operands succs = lower_destroy_module operands
lower library hash (OpName.load_fast name) operands succs = lower_load_fast name
lower library hash (OpName.load_fast_and_clear name) operands succs = lower_load_fast_and_clear name
lower library hash (OpName.store_fast name) (v ∷ rest) succs = lower_store_fast name v
lower library hash (OpName.load_name name) operands succs = lower_load_name name
lower library hash (OpName.store_name name) (v ∷ rest) succs = lower_store_name name v
lower library hash (OpName.load_const value) operands succs = lower_load_const hash value
lower library hash (OpName.load_arg index) (args ∷ rest) succs = lower_load_arg index args
lower library hash (OpName.load_attr name) (obj ∷ rest) succs = lower_load_attr name obj
lower library hash OpName.store_subscr (c ∷ i ∷ v ∷ rest) succs = lower_store_subscr c i v
lower library hash OpName.call (callee ∷ args) succs = lower_call callee args
lower library hash OpName.push_scope operands succs = lower_push_scope operands
lower library hash OpName.pop_scope operands succs = lower_pop_scope operands
lower library hash (OpName.make_function name) operands succs = lower_make_function name
lower library hash OpName.return_value (v ∷ rest) succs = lower_return_value v
lower library hash OpName.is_truthy (v ∷ rest) succs = lower_is_truthy v
lower library hash OpName.to_bool operands succs = lower_to_bool operands
lower library hash OpName.unary_invert operands succs = lower_unary_invert operands
lower library hash OpName.unary_negative operands succs = lower_unary_negative operands
lower library hash OpName.unary_not operands succs = lower_unary_not operands
lower library hash (OpName.binary_op op) operands succs = lower_operator (binary_fn op) operands
lower library hash (OpName.compare_op op) operands succs = lower_compare (stripped op) operands
lower library hash (OpName.contains_op op) operands succs = lower_operator (contains_fn op) operands
lower library hash OpName.format_simple operands succs = lower_format_simple operands
lower library hash OpName.build_string operands succs = lower_build_string operands
lower library hash OpName.build_list operands succs = lower_build_list operands
lower library hash OpName.list_extend operands succs = lower_list_extend operands
lower library hash OpName.list_append operands succs = lower_list_append operands
lower library hash OpName.build_set operands succs = lower_build_set operands
lower library hash OpName.set_update operands succs = lower_set_update operands
lower library hash OpName.set_add operands succs = lower_set_add operands
lower library hash OpName.build_map operands succs = lower_build_map operands
lower library hash OpName.map_add operands succs = lower_map_add operands
lower library hash OpName.push_null operands succs = lower_push_null
lower library hash OpName.get_iter operands succs = lower_get_iter operands
lower library hash OpName.for_iter (it ∷ exit_args) (body ∷ exit ∷ more) =
    lower_for_iter it exit_args body.block exit.block
lower library hash OpName.pop_iter operands succs = lower_pop_iter operands
lower library hash (OpName.load_deref name) operands succs = failed
lower library hash (OpName.store_deref name) operands succs = failed
lower library hash OpName.br operands succs = library OpName.br operands succs
lower library hash OpName.cond_br operands succs = library OpName.cond_br operands succs
lower library hash OpName.func_return operands succs = library OpName.func_return operands succs
lower library hash name operands succs = out_of_range
