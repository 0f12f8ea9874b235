-- ===== src/Codegen/Module.antt =====
-- pycompile/src/conversion/pyir_codegen.cpp, from `switchToOffsetBlock` on: the translation of a
-- module with its nested functions.
use text.Mathlib.Text.{starts_with}
use mathlib.Core.List.{reverse}
use pycompile.Base.{
  ℕ, zero, suc, ◌+◌, Bool, true, false, List, [], ◌∷◌, ◌++◌, none, some, String, length,
  if◌then◌else◌,
}
use pycompile.Base.Int.{as_size, pos, negsuc}
use pycompile.Base.Assoc.{lookup, insert}
use pycompile.Bytecode.{
  Opcode, ArgvalType, CodeInfo, ExceptionTableEntry, Argval, ByteCodeInstruction, instr,
  Instructions, nil, cons, ByteCodeModule, bytecode_module,
}
use pycompile.Pyir.{Value, OpName, ends_terminated}
use pycompile.Codegen.State.{
  Error, State, Gen, ◌>>=◌, ◌>>◌, pure, throw, get, modify, create, create_void, create_branch,
  block_of, add_block, arguments, ensure_arguments, set_insertion_start, stack_values, fresh,
}
use pycompile.Codegen.Memory.{
  name_at, load_none_codegen, load_attr_const_codegen, load_code_codegen,
}
use pycompile.Codegen.Control.{successor}
use pycompile.Codegen.Driver.{dispatch}

-- `builder.getBlock()->mightHaveTerminator()`
unfoldable pub current_terminated : Gen Bool
unfolding block_of ends_terminated
current_terminated s = elim (block_of s.at_fn s.at_block s.funcs) [
  | none ↦ throw Error.undefined s
  | some b ↦ pure (ends_terminated b.ops) s
]

-- `switchToOffsetBlock` to a block that the map of offsets holds.
unfoldable pub switch_to_offset_block : ℕ → Gen (Unit {0})
unfolding current_terminated stack_values ensure_arguments create_branch set_insertion_start
    arguments
switch_to_offset_block target_block = do
  terminated ← current_terminated
  (if terminated then pure tt else do
    branch_args ← stack_values
    ensure_arguments target_block branch_args
    create_branch OpName.br [] (successor target_block branch_args ∷ []))
  set_insertion_start target_block
  args ← arguments target_block
  modify (λ (s : State). record s { stack = reverse args })

-- `if (!meta.offsetToBlock.contains(offset)) meta.offsetToBlock[offset] = fn.addBlock();`
unfoldable pub ensure_block : ℕ → Gen (Unit {0})
unfolding lookup insert add_block
ensure_block offset = do
  s ← get
  elim (lookup offset s.offset_to_block) [
    | some _ ↦ pure tt
    | none ↦ do
      b ← add_block
      modify (λ (t : State). record t { offset_to_block = insert offset b t.offset_to_block })
  ]

-- The loop over the exception table.
unfoldable pub handler_blocks : List ExceptionTableEntry → Gen (Unit {0})
unfolding ensure_block
handler_blocks [] = pure tt
handler_blocks (e ∷ es) = do ensure_block e.target; handler_blocks es

unfoldable pub is_jump : Opcode → Bool
is_jump Opcode.jump_forward = true
is_jump Opcode.pop_jump_if_true = true
is_jump Opcode.pop_jump_if_false = true
is_jump Opcode.jump_backward = true
is_jump _ = false

unfoldable pub is_end_for : Opcode → Bool
is_end_for Opcode.end_for = true
is_end_for _ = false

unfoldable pub is_return : Opcode → Bool
is_return Opcode.return_value = true
is_return _ = false

-- The pre-pass for one instruction.
unfoldable pub jump_block : ℕ → Opcode → Argval → Gen (Unit {0})
unfolding is_jump is_end_for ensure_block as_size insert add_block
jump_block offset opcode argval =
    if is_end_for opcode
    then (do
      b ← add_block
      modify (λ (t : State). record t { offset_to_block = insert offset b t.offset_to_block }))
    else elim argval [
      | Argval.int target ↦ if is_jump opcode then ensure_block (as_size target) else pure tt
      | _ ↦ pure tt
    ]

-- The pre-pass over all instructions.
unfoldable pub jump_blocks : Instructions → Gen (Unit {0})
unfolding jump_block
jump_blocks nil = pure tt
jump_blocks (cons (instr offset opcode repr line starts type argval) rest) = do
  jump_block offset opcode argval
  jump_blocks rest

-- The argument unpacking of a function, for `k` arguments from index `i` on.
unfoldable pub unpack_arguments : List String → Value → ℕ → ℕ → Gen (Unit {0})
unfolding create create_void name_at
unpack_arguments varnames args_ptr i zero = pure tt
unpack_arguments varnames args_ptr i (suc k) = do
  arg_val ← create (OpName.load_arg i) (args_ptr ∷ [])
  name ← name_at varnames (pos i)
  create_void (OpName.store_fast name) (arg_val ∷ [])
  unpack_arguments varnames args_ptr (i + 1) k

-- A negative argument count is a huge `size_t`, and the loop runs off the end of `varnames`.
unfoldable pub unpack_all_arguments : CodeInfo → Value → Gen (Unit {0})
unfolding unpack_arguments
unpack_all_arguments info args_ptr = elim info.argcount [
  | pos n ↦ unpack_arguments info.varnames args_ptr 0 n
  | negsuc _ ↦ throw Error.undefined
]

-- The entry block's values: two for a function, none for a module.
unfoldable pub entry_values : Bool → Gen (List Value)
unfolding fresh
entry_values true = do args_ptr ← fresh; argc ← fresh; pure (args_ptr ∷ argc ∷ [])
entry_values false = pure []

-- A new `ConversionMeta`, the `FuncOp` with its entry block, and the preamble.
unfoldable pub begin_module : String → String → CodeInfo → String → Gen (Unit {0})
unfolding entry_values create_void unpack_all_arguments
begin_module filename module_name info name = do
  let function = starts_with name "__pyfn_"
  params ← entry_values function
  modify (λ (s : State). record s {
    stack = [];
    offset_to_block = [];
    pending_functions = [];
    is_function = function;
    fn = length s.funcs;
    at_fn = length s.funcs;
    at_block = 0;
    at_pos = 0;
    funcs =
        s.funcs
        ++ (record {
          name = name;
          params = params;
          blocks = record { args = params; ops = [] } ∷ [];
        }
            ∷ []);
  })
  elim params [
    | args_ptr ∷ _ ↦ (do create_void OpName.push_scope []; unpack_all_arguments info args_ptr)
    | [] ↦ create_void (OpName.init_module filename module_name) []
  ]

-- The switch to the block of a jump target at the head of the loop over the instructions. The
-- result is the flag `blockComplete`.
unfoldable pub enter_offset : ℕ → Bool → Gen Bool
unfolding lookup switch_to_offset_block
enter_offset offset block_complete = do
  s ← get
  elim (lookup offset s.offset_to_block) [
    | none ↦ pure block_complete
    | some b ↦ (do switch_to_offset_block b; pure false)
  ]

-- The caller's `ConversionMeta`, which is a local variable of the C++ function.
abbrev restore_meta : State → Gen (Unit {0})
restore_meta s = modify (λ (t : State). record t {
  stack = s.stack;
  offset_to_block = s.offset_to_block;
  pending_functions = s.pending_functions;
  is_function = s.is_function;
  fn = s.fn;
})

unfoldable pub code_name_of : ByteCodeModule → String
code_name_of (bytecode_module filename module_name info instructions) = info.code_name

unfoldable mutual
  unfolding begin_module handler_blocks jump_blocks enter_offset dispatch load_none_codegen
      load_attr_const_codegen load_code_codegen code_name_of is_return

  -- `loadConstCodegen`
  pub load_const_codegen : ArgvalType → String → Argval → Gen (Unit {0})
  load_const_codegen type repr Argval.none = load_none_codegen
  load_const_codegen type repr (Argval.code nested) =
      load_code_codegen (code_name_of nested) (build_mlir_module nested)
  load_const_codegen type repr (Argval.bool b) = load_attr_const_codegen type repr (Argval.bool b)
  load_const_codegen type repr (Argval.int i) = load_attr_const_codegen type repr (Argval.int i)
  load_const_codegen type repr (Argval.float d) = load_attr_const_codegen type repr (Argval.float d)
  load_const_codegen type repr (Argval.str t) = load_attr_const_codegen type repr (Argval.str t)
  load_const_codegen type repr (Argval.tuple vs) =
      load_attr_const_codegen type repr (Argval.tuple vs)

  -- `buildMLIRInstruction`, and one round of the loop around it with the flag `blockComplete`.
  pub build_mlir_instruction : CodeInfo → Bool → ByteCodeInstruction → Gen Bool
  build_mlir_instruction info block_complete (instr offset opcode repr line starts type argval) = do
    complete ← enter_offset offset block_complete
    (if complete
        then pure tt
        else dispatch opcode repr info argval (load_const_codegen type repr argval))
    pure (if is_return opcode then true else complete)

  pub build_instructions : CodeInfo → Bool → Instructions → Gen (Unit {0})
  build_instructions info block_complete nil = pure tt
  build_instructions info block_complete (cons i rest) = do
    complete ← build_mlir_instruction info block_complete i
    build_instructions info complete rest

  -- `buildMLIRModule`
  pub build_mlir_module : ByteCodeModule → String → Gen (Unit {0})
  build_mlir_module (bytecode_module filename module_name info instructions) name = do
    caller ← get
    begin_module filename module_name info name
    handler_blocks info.exception_table
    jump_blocks instructions
    build_instructions info false instructions
    restore_meta caller

-- An empty module with the builder at its body, and `generatePyIR` up to the verification.
abbrev pub empty_state : State
empty_state = record {
  stack = [];
  offset_to_block = [];
  pending_functions = [];
  is_function = false;
  fn = 0;
  at_fn = 0;
  at_block = 0;
  at_pos = 0;
  funcs = [];
  next_value = 0;
  fn_counter = 0;
}

unfoldable pub generate_pyir : ByteCodeModule → Gen (Unit {0})
unfolding build_mlir_module
generate_pyir m = build_mlir_module m "__pymodule"
