-- ===== src/Frontend/Decode.antt =====
-- pycompile/src/bytecode/bytecode.cpp: the disassembly of a code object. The line number that the
-- C++ functions share by reference is passed on.
use Prim.Native.String.{◌++◌ as str_append}
use pycompile.Base.{
  ℕ, zero, suc, Bool, false, List, [], ◌∷◌, Option, none, some, String, if◌then◌else◌,
}
use pycompile.Base.Int.{ℤ, pos, as_size}
use pycompile.Bytecode.{
  Primitive, ArgvalType, CodeInfo, Argval, ByteCodeInstruction, instr, Instructions, nil, cons,
  ByteCodeModule, bytecode_module,
}
use pycompile.Frontend.Opcodes.{python_opcode_from_string}
use pycompile.Frontend.Python.{Python, Error, Decoded, ok, fail, ◌>>=◌, non_null}

-- `NESTED_FUNCTION_DEPTH`: the depths from 0 to 16 are translated.
abbrev pub depths : ℕ
depths = 17

module _ {P : Type 0} (py : Python P) where
  abbrev need : P → String → Decoded P
  need x name = non_null (py.attr x name)

  -- A `std::string` of a null pointer is undefined.
  abbrev pub utf8 : P → Decoded String
  utf8 x = non_null (py.as_utf8 x)

  abbrev utf8_items : List P → Decoded (List String)
  utf8_items [] = ok []
  utf8_items (s ∷ items) =
      let rest = utf8_items items in
      if py.is_unicode s then (do t ← utf8 s; ts ← rest; ok (t ∷ ts)) else rest

  abbrev tuple_strings : String → Option P → Decoded (List String)
  tuple_strings attr none =
      fail (
        Error.runtime_error (str_append "Expected attribute '" (str_append attr "' to be a tuple")))
  tuple_strings attr (some tup) =
      if py.is_tuple tup
      then utf8_items (py.tuple_items tup)
      else fail (
          Error.runtime_error
            (str_append "Expected attribute '" (str_append attr "' to be a tuple")))

  unfoldable pub extract_py_tuple_strings : P → String → Decoded (List String)
  extract_py_tuple_strings code attr = tuple_strings attr (py.attr code attr)

  -- The chain of type tests on an element of a tuple or of a frozen set.
  unfoldable pub decode_primitive : String → P → Decoded Primitive
  decode_primitive message s =
      if py.is_bool s
      then ok (Primitive.bool (py.is_true_object s))
      else if py.is_long s
      then ok (Primitive.int (py.as_long s))
      else if py.is_float s
      then ok (Primitive.float (py.as_double s))
      else if py.is_unicode s
      then (do t ← utf8 s; ok (Primitive.str t))
      else if py.is_none s
      then ok Primitive.none
      else fail (Error.compile_error message)

  unfoldable pub decode_primitives : String → List P → Decoded (List Primitive)
  unfolding decode_primitive
  decode_primitives message [] = ok []
  decode_primitives message (s ∷ items) = do
    v ← decode_primitive message s
    vs ← decode_primitives message items
    ok (v ∷ vs)

  unfoldable pub decode_tuple_str : P → String → Decoded (List Primitive)
  unfolding decode_primitives
  decode_tuple_str argval repr =
      decode_primitives (str_append "Unknown tuple str argval type " repr) (py.tuple_items argval)

  unfoldable pub decode_frozen_set : P → String → Decoded (List Primitive)
  unfolding decode_primitives
  decode_frozen_set argval repr = elim (py.iterate argval) [
    | none ↦ fail (Error.compile_error (str_append "Failed to iterate frozen set " repr))
    | some items ↦ decode_primitives (str_append "Unknown frozen set argval type " repr) items
  ]

  -- The chain of type tests on `argval`. `nested` translates a code object one level deeper.
  unfoldable pub decode_argval :
      (P → Decoded ByteCodeModule) → String → P → Decoded (ArgvalType × Argval)
  unfolding decode_tuple_str decode_frozen_set
  decode_argval nested repr argval =
      if py.is_bool argval
      then ok (ArgvalType.bool, Argval.bool (py.is_true_object argval))
      else if py.is_long argval
      then ok (ArgvalType.int, Argval.int (py.as_long argval))
      else if py.is_float argval
      then ok (ArgvalType.float, Argval.float (py.as_double argval))
      else if py.is_unicode argval
      then (do t ← utf8 argval; ok (ArgvalType.str, Argval.str t))
      else if py.is_tuple argval
      then (do vs ← decode_tuple_str argval repr; ok (ArgvalType.tuple_str, Argval.tuple vs))
      else if py.is_frozen_set argval
      then (do vs ← decode_frozen_set argval repr; ok (ArgvalType.frozen_set, Argval.tuple vs))
      else if py.is_code argval
      then (do m ← nested argval; ok (ArgvalType.code, Argval.code m))
      else if py.is_none argval
      then ok (ArgvalType.none, Argval.none)
      else fail (Error.compile_error (str_append "Unknown argval type " repr))

  -- The line number after the attribute `lineno` of the positions.
  abbrev start_line : Option P → ℤ → ℤ
  start_line none line = line
  start_line (some start) line = if py.is_none start then line else py.as_long start

  -- The shared line number, and the instruction's own.
  unfoldable pub decode_position : Option P → ℤ → ℤ × Option ℕ
  unfolding as_size
  decode_position none line = (line, none)
  decode_position (some positions) line =
      let next = start_line (py.attr positions "lineno") line in
      if py.is_none positions then (line, none) else (next, some (as_size next))

  abbrev pub starts_line : Option P → Bool
  starts_line none = false
  starts_line (some x) = py.is_true x

  unfoldable pub decode_byte_code_instruction :
      (P → Decoded ByteCodeModule) → P → ℤ → Decoded (ByteCodeInstruction × ℤ)
  unfolding python_opcode_from_string decode_position decode_argval as_size
  decode_byte_code_instruction nested object line = do
    offset ← need object "offset"
    opcode ← need object "opcode"
    opname ← need object "opname"
    op ← utf8 opname
    argrepr ← need object "argrepr"
    repr ← utf8 argrepr
    let starts = starts_line (py.attr object "starts_line")
    let position = decode_position (py.attr object "positions") line
    argval ← need object "argval"
    (type, value) ← decode_argval nested repr argval
    ok (
      instr (as_size (py.as_long offset)) (python_opcode_from_string op) repr position.1 starts type
          value,
      position.0,
    )

  unfoldable pub decode_instructions :
      (P → Decoded ByteCodeModule) → List P → ℤ → Decoded Instructions
  unfolding decode_byte_code_instruction
  decode_instructions nested [] line = ok nil
  decode_instructions nested (item ∷ items) line = do
    (i, next) ← decode_byte_code_instruction nested item line
    rest ← decode_instructions nested items next
    ok (cons i rest)

  abbrev long_or : ℤ → Option P → ℤ
  long_or d none = d
  long_or d (some x) = py.as_long x

  abbrev pub utf8_or : String → Option P → Decoded String
  utf8_or d none = ok d
  utf8_or d (some x) = utf8 x

  unfoldable pub instructions_of : P → Decoded (List P)
  instructions_of code = elim (py.get_instructions code) [
    | none ↦ fail (Error.runtime_error py.error_traceback)
    | some items ↦ ok items
  ]

  -- `generatePythonByteCode` with the number of depths that are left.
  unfoldable pub generate_python_byte_code : ℕ → String → Bool → P → Decoded ByteCodeModule
  unfolding extract_py_tuple_strings decode_instructions instructions_of
  generate_python_byte_code zero filename is_main code =
      fail (Error.runtime_error "Maximum nested function depth exceeded")
  generate_python_byte_code (suc left) filename is_main code = do
    freevars ← extract_py_tuple_strings code "co_freevars"
    cellvars ← extract_py_tuple_strings code "co_cellvars"
    varnames ← extract_py_tuple_strings code "co_varnames"
    code_name ← utf8_or "<unknown>" (py.attr code "co_name")
    let info : CodeInfo = record {
      code_name = code_name;
      argcount = long_or (pos 0) (py.attr code "co_argcount");
      freevars = freevars;
      cellvars = cellvars;
      varnames = varnames;
      exception_table = [];
    }
    items ← instructions_of code
    instructions ←
        decode_instructions (generate_python_byte_code left filename false) items
          (long_or (pos 1) (py.attr code "co_firstlineno"))
    ok (
        bytecode_module filename (if is_main then "__main__" else py.stem filename) info
          instructions)
