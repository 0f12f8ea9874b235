-- ===== src/Frontend/Serialize.antt =====
-- pycompile/src/bytecode/serialize_bytecode.cpp: bytecode as text. The output stream is the text
-- that was written; what is written before an exception is not kept.
use Prim.Native.String.{◌++◌ as str_append, len as str_length}
use text.Mathlib.Text.{◌==◌ as str_eq}
use pycompile.Base.{ℕ, zero, suc, ◌-◌, Bool, List, [], ◌∷◌, Option, String, if◌then◌else◌}
use pycompile.Base.Int.{ℤ, pos, negsuc}
use pycompile.Base.Text.{to_string}
use pycompile.Bytecode.{
  ArgvalType, ExceptionTableEntry, CodeInfo, Argval, ByteCodeInstruction, instr, Instructions, nil,
  cons, ByteCodeModule, bytecode_module,
}
use pycompile.Frontend.Opcodes.{python_opcode_to_string}
use pycompile.Frontend.Python.{Error, Decoded, ok, fail, ◌>>=◌, non_null}

unfoldable pub argval_type_to_string : ArgvalType → String
argval_type_to_string ArgvalType.none = "None"
argval_type_to_string ArgvalType.bool = "Bool"
argval_type_to_string ArgvalType.int = "Int"
argval_type_to_string ArgvalType.float = "Float"
argval_type_to_string ArgvalType.str = "Str"
argval_type_to_string ArgvalType.tuple_str = "TupleStr"
argval_type_to_string ArgvalType.frozen_set = "FrozenSet"
argval_type_to_string ArgvalType.code = "Code"

-- `ind += ">>> "` as often as the depth says.
abbrev indent : ℕ → String
indent zero = ""
indent (suc n) = str_append (indent n) ">>> "

abbrev spaces : ℕ → String
spaces zero = ""
spaces (suc n) = str_append " " (spaces n)

-- `std::setw(width) << std::left << text`
abbrev left : ℕ → String → String
left width text = str_append text (spaces (width - str_length text))

abbrev concat : List String → String
concat [] = ""
concat (t ∷ ts) = str_append t (concat ts)

abbrev int_to_string : ℤ → String
int_to_string (pos n) = to_string n
int_to_string (negsuc n) = str_append "-" (to_string (suc n))

-- `std::get` of one alternative of the variant.
abbrev get_int : Argval → Decoded ℤ
get_int (Argval.int i) = ok i
get_int _ = fail Error.bad_variant

abbrev get_float : Argval → Decoded ℕ
get_float (Argval.float d) = ok d
get_float _ = fail Error.bad_variant

abbrev get_str : Argval → Decoded String
get_str (Argval.str t) = ok t
get_str _ = fail Error.bad_variant

-- `show` is `std::to_string` on a `double_t`.
module _ (show : ℕ → String) where
  abbrev pub typed_repr : ArgvalType → Argval → Decoded String
  typed_repr ArgvalType.int arg = do i ← get_int arg; ok (int_to_string i)
  typed_repr ArgvalType.float arg = do d ← get_float arg; ok (show d)
  typed_repr ArgvalType.str arg = get_str arg
  typed_repr ArgvalType.tuple_str arg = ok "[tuple]"
  typed_repr ArgvalType.frozen_set arg = ok "[frozen set]"
  typed_repr ArgvalType.code arg = ok "[code object]"
  typed_repr _ arg = ok ""

  unfoldable pub repr_of : String → ArgvalType → Argval → Decoded String
  repr_of repr type arg = if str_eq repr "" then typed_repr type arg else ok repr

  -- `*instr.lineno` is used where the instruction starts a line.
  unfoldable pub line_text : Bool → Option ℕ → Decoded String
  unfolding to_string
  line_text starts line = if starts then (do n ← non_null line; ok (to_string n)) else ok ""

  unfoldable pub serialize_instruction : ByteCodeInstruction → ℕ → Decoded String
  unfolding repr_of line_text argval_type_to_string python_opcode_to_string to_string
  serialize_instruction (instr offset opcode repr line starts type arg) depth = do
    text ← repr_of repr type arg
    number ← line_text starts line
    let type_text = concat ("(" ∷ argval_type_to_string type ∷ ")" ∷ [])
    ok (
        concat (
          indent depth
          ∷ left 4 number
          ∷ " "
          ∷ left 4 (to_string offset)
          ∷ " "
          ∷ left 20 (python_opcode_to_string opcode)
          ∷ " "
          ∷ left 10 type_text
          ∷ " "
          ∷ text
          ∷ "\n"
          ∷ []))

  abbrev names_text : List String → String
  names_text [] = ""
  names_text (v ∷ vs) = concat (v ∷ " " ∷ names_text vs ∷ [])

  abbrev names_line : String → List String → ℕ → String
  names_line label [] depth = ""
  names_line label (v ∷ vs) depth = concat (indent depth ∷ label ∷ names_text (v ∷ vs) ∷ "\n" ∷ [])

  abbrev entry_text : ExceptionTableEntry → ℕ → String
  entry_text e depth = concat (
      indent depth
      ∷ "  ["
      ∷ to_string e.start
      ∷ ", "
      ∷ to_string e.end
      ∷ ") -> target "
      ∷ to_string e.target
      ∷ "  depth "
      ∷ to_string e.depth
      ∷ "  lasti "
      ∷ (if e.lasti then "true" else "false")
      ∷ "\n"
      ∷ [])

  abbrev entries_text : List ExceptionTableEntry → ℕ → String
  entries_text [] depth = ""
  entries_text (e ∷ es) depth = str_append (entry_text e depth) (entries_text es depth)

  abbrev table_text : List ExceptionTableEntry → ℕ → String
  table_text [] depth = ""
  table_text (e ∷ es) depth =
      concat (indent depth ∷ "exception table:\n" ∷ entries_text (e ∷ es) depth ∷ [])

  -- The metadata in front of the instructions.
  unfoldable pub serialize_info : CodeInfo → ℕ → String
  unfolding to_string
  serialize_info info depth = concat (
      names_line "cellvars: " info.cellvars depth
      ∷ names_line "freevars: " info.freevars depth
      ∷ table_text info.exception_table depth
      ∷ [])

  unfoldable mutual
    unfolding serialize_info serialize_instruction

    -- The text of the code object that an instruction of type Code holds.
    pub serialize_nested : ByteCodeInstruction → ℕ → Decoded String
    serialize_nested (instr offset opcode repr line starts ArgvalType.code (Argval.code m)) depth =
        serialize_byte_code_module m (suc depth)
    serialize_nested (instr offset opcode repr line starts ArgvalType.code _) depth = fail (
        Error.runtime_error "Expected argval to be a vector of Instructions for nested code object")
    serialize_nested (instr offset opcode repr line starts _ _) depth = ok ""

    pub serialize_instructions : Instructions → ℕ → Decoded String
    serialize_instructions nil depth = ok ""
    serialize_instructions (cons i rest) depth = do
      text ← serialize_instruction i depth
      nested ← serialize_nested i depth
      more ← serialize_instructions rest depth
      ok (concat (text ∷ nested ∷ more ∷ []))

    pub serialize_byte_code_module : ByteCodeModule → ℕ → Decoded String
    serialize_byte_code_module (bytecode_module filename module_name info instructions) depth = do
      text ← serialize_instructions instructions depth
      ok (str_append (serialize_info info depth) text)
