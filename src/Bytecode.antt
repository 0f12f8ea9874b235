-- ===== src/Bytecode.antt =====
-- pycompile/src/bytecode/bytecode.hpp and python_opcodes.hpp: the bytecode that the front end hands
-- to the code generator. A `double_t` is kept as its 64-bit pattern, since it is only passed on.
use pycompile.Base.{ℕ, Bool, List, Option, String}
use pycompile.Base.Int.{ℤ}

-- The opcodes that the code generator's switch names. `other` is any further entry of
-- python_opcodes.inc, by its name; they all reach the switch's default.
pub data Opcode : Type 0 where
  resume not_taken end_for : Opcode
  build_string build_list list_extend list_append build_set set_update set_add : Opcode
  build_map map_add : Opcode
  jump_forward jump_backward pop_jump_if_true pop_jump_if_false get_iter for_iter pop_iter : Opcode
  make_function call return_value : Opcode
  binary_op compare_op contains_op to_bool unary_not unary_negative unary_invert : Opcode
  format_simple : Opcode
  load_small_int load_global load_fast_borrow load_const load_attr load_name store_name : Opcode
  load_fast store_fast load_deref store_deref store_subscr : Opcode
  store_fast_load_fast load_fast_and_clear : Opcode
  push_null pop_top copy swap : Opcode
  other : String → Opcode

-- `PrimitiveArgvals`: what a tuple or frozen set may hold.
pub data Primitive : Type 0 where
  none : Primitive
  bool : Bool → Primitive
  int : ℤ → Primitive
  float : ℕ → Primitive
  str : String → Primitive

pub data ArgvalType : Type 0 where
  none bool int float str tuple_str frozen_set code : ArgvalType

pub record ExceptionTableEntry : Type 0 where
  pub start : ℕ
  pub end : ℕ
  pub target : ℕ
  pub depth : ℕ
  pub lasti : Bool

pub record CodeInfo : Type 0 where
  pub code_name : String
  pub argcount : ℤ
  pub freevars : List String
  pub cellvars : List String
  pub varnames : List String
  pub exception_table : List ExceptionTableEntry

mutual
  -- `std::variant<ArgvalNone, bool, int64_t, double_t, std::string, std::vector<PrimitiveArgvals>,
  -- std::shared_ptr<ByteCodeModule>>`
  pub data Argval : Type 0 where
    none : Argval
    bool : Bool → Argval
    int : ℤ → Argval
    float : ℕ → Argval
    str : String → Argval
    tuple : List Primitive → Argval
    code : ByteCodeModule → Argval

  -- The fields are offset, opcode, argrepr, lineno, startsLine, argvalType, argval. The numeric
  -- `opcodeId`, which nothing reads, is left out.
  pub data ByteCodeInstruction : Type 0 where
    instr : ℕ → Opcode → String → Option ℕ → Bool → ArgvalType → Argval → ByteCodeInstruction

  pub data Instructions : Type 0 where
    nil : Instructions
    cons : ByteCodeInstruction → Instructions → Instructions

  -- The fields are filename, module name, code info, instructions.
  pub data ByteCodeModule : Type 0 where
    bytecode_module : String → String → CodeInfo → Instructions → ByteCodeModule
