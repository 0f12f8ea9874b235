-- ===== src/Codegen/Driver.antt =====
-- pycompile/src/conversion/pyir_codegen.cpp: the switch over the opcodes. A source location is not modelled: it is carried by operations and messages only.
use Prim.Native.String.{◌++◌ as str_append}
use pycompile.Base.{suc, [], String, set}
use pycompile.Base.Int.{ℤ, pos}
use pycompile.Bytecode.{Opcode, CodeInfo, Argval}
use pycompile.Pyir.{OpName}
use pycompile.Codegen.State.{
  Error, State, Gen, ◌>>=◌, pure, throw, modify, push, pop, top, stack_at, want_int, create,
}
use pycompile.Codegen.Builders.{
  build_string_codegen, build_list_codegen, list_extend_codegen, list_append_codegen,
  build_set_codegen, set_update_codegen, set_add_codegen, build_map_codegen, map_add_codegen,
}
use pycompile.Codegen.Logical.{
  binary_op_codegen, compare_op_codegen, contains_op_codegen, to_bool_codegen, unary_not_codegen,
  unary_negative_codegen, unary_invert_codegen, format_simple_codegen,
}
use pycompile.Codegen.Memory.{
  load_small_int_codegen, load_global_codegen, load_fast_borrow_codegen, load_name_codegen,
  store_name_codegen, load_fast_codegen, store_fast_codegen, load_deref_codegen,
  store_deref_codegen, load_attr_codegen, store_subscr_codegen, store_fast_load_fast_codegen,
  load_fast_and_clear_codegen,
}
use pycompile.Codegen.Control.{
  jump_forward_codegen, jump_backward_codegen, pop_jump_if_true_codegen, pop_jump_if_false_codegen,
  get_iter_codegen, for_iter_codegen, pop_iter_codegen,
}
use pycompile.Codegen.Functions.{make_function_codegen, call_func_codegen, return_value_codegen}

-- The case of COPY.
unfoldable pub copy_codegen : Argval → Gen (Unit {0})
unfolding want_int stack_at push
copy_codegen argval = do
  idx ← want_int (Error.compile_error "COPY must have an int argval") argval
  v ← stack_at idx
  push v

-- `std::swap(meta.stack.back(), meta.stack.at(meta.stack.size() - *idx))`
unfoldable pub swap_stack : ℤ → Gen (Unit {0})
unfolding top stack_at
swap_stack (pos (suc i)) = do
  back ← top
  v ← stack_at (pos (suc i))
  modify (λ (s : State). record s { stack = set (set s.stack i back) 0 v })
swap_stack _ = do _ ← top; throw Error.out_of_range

-- The case of SWAP.
unfoldable pub swap_codegen : Argval → Gen (Unit {0})
unfolding want_int swap_stack
swap_codegen argval = do
  idx ← want_int (Error.compile_error "SWAP must have an int argval") argval
  swap_stack idx

-- The case of POP_TOP.
unfoldable pub pop_top_codegen : Gen (Unit {0})
unfolding pop
pop_top_codegen = do _ ← pop; pure tt

-- The case of PUSH_NULL.
unfoldable pub push_null_codegen : Gen (Unit {0})
unfolding create push
push_null_codegen = do v ← create OpName.push_null []; push v

-- `pythonOpcodeToString` of an opcode that the switch does not name, and the switch's default.
unfoldable pub unsupported_codegen : String → Gen (Unit {0})
unsupported_codegen name =
    throw (Error.compile_error (str_append (str_append "Unsupported opcode '" name) "'"))

-- The switch of `buildMLIRInstruction`. `constant` is the translation of LOAD_CONST.
unfoldable pub dispatch : Opcode → String → CodeInfo → Argval → Gen (Unit {0}) → Gen (Unit {0})
dispatch Opcode.resume repr info arg constant = pure tt
dispatch Opcode.not_taken repr info arg constant = pure tt
dispatch Opcode.end_for repr info arg constant = pure tt
dispatch Opcode.build_string repr info arg constant = build_string_codegen arg
dispatch Opcode.build_list repr info arg constant = build_list_codegen arg
dispatch Opcode.list_extend repr info arg constant = list_extend_codegen arg
dispatch Opcode.list_append repr info arg constant = list_append_codegen arg
dispatch Opcode.build_set repr info arg constant = build_set_codegen arg
dispatch Opcode.set_update repr info arg constant = set_update_codegen arg
dispatch Opcode.set_add repr info arg constant = set_add_codegen arg
dispatch Opcode.build_map repr info arg constant = build_map_codegen arg
dispatch Opcode.map_add repr info arg constant = map_add_codegen arg
dispatch Opcode.jump_forward repr info arg constant = jump_forward_codegen arg
dispatch Opcode.jump_backward repr info arg constant = jump_backward_codegen arg
dispatch Opcode.pop_jump_if_true repr info arg constant = pop_jump_if_true_codegen arg
dispatch Opcode.pop_jump_if_false repr info arg constant = pop_jump_if_false_codegen arg
dispatch Opcode.get_iter repr info arg constant = get_iter_codegen
dispatch Opcode.for_iter repr info arg constant = for_iter_codegen arg
dispatch Opcode.pop_iter repr info arg constant = pop_iter_codegen
dispatch Opcode.make_function repr info arg constant = make_function_codegen
dispatch Opcode.call repr info arg constant = call_func_codegen arg
dispatch Opcode.return_value repr info arg constant = return_value_codegen
dispatch Opcode.binary_op repr info arg constant = binary_op_codegen repr
dispatch Opcode.compare_op repr info arg constant = compare_op_codegen repr
dispatch Opcode.contains_op repr info arg constant = contains_op_codegen repr
dispatch Opcode.to_bool repr info arg constant = to_bool_codegen
dispatch Opcode.unary_not repr info arg constant = unary_not_codegen
dispatch Opcode.unary_negative repr info arg constant = unary_negative_codegen
dispatch Opcode.unary_invert repr info arg constant = unary_invert_codegen
dispatch Opcode.format_simple repr info arg constant = format_simple_codegen
dispatch Opcode.load_small_int repr info arg constant = load_small_int_codegen arg
dispatch Opcode.load_global repr info arg constant = load_global_codegen arg
dispatch Opcode.load_fast_borrow repr info arg constant = load_fast_borrow_codegen arg
dispatch Opcode.load_const repr info arg constant = constant
dispatch Opcode.load_attr repr info arg constant = load_attr_codegen arg
dispatch Opcode.load_name repr info arg constant = load_name_codegen arg
dispatch Opcode.store_name repr info arg constant = store_name_codegen arg
dispatch Opcode.load_fast repr info arg constant = load_fast_codegen arg
dispatch Opcode.store_fast repr info arg constant = store_fast_codegen arg
dispatch Opcode.load_deref repr info arg constant = load_deref_codegen info arg
dispatch Opcode.store_deref repr info arg constant = store_deref_codegen info arg
dispatch Opcode.store_subscr repr info arg constant = store_subscr_codegen
dispatch Opcode.store_fast_load_fast repr info arg constant = store_fast_load_fast_codegen arg
dispatch Opcode.load_fast_and_clear repr info arg constant = load_fast_and_clear_codegen arg
dispatch Opcode.push_null repr info arg constant = push_null_codegen
dispatch Opcode.pop_top repr info arg constant = pop_top_codegen
dispatch Opcode.copy repr info arg constant = copy_codegen arg
dispatch Opcode.swap repr info arg constant = swap_codegen arg
dispatch (Opcode.other name) repr info arg constant = unsupported_codegen name
