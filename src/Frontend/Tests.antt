-- ===== src/Frontend/Tests.antt =====
-- The front end on a small model of CPython's objects: an object is a list of attributes, or a
-- constant.
use text.Mathlib.Text.{◌==◌ as str_eq}
use pycompile.Base.{
  ℕ, ◌≡◌, refl, Bool, true, false, List, [], ◌∷◌, Option, none, some, String, if◌then◌else◌,
}
use pycompile.Base.Int.{ℤ, pos}
use pycompile.Bytecode.{Opcode, ArgvalType, Argval, instr, nil, cons}
use pycompile.Frontend.Python.{Python, Error, ok, fail, Yields}
use pycompile.Frontend.Decode.{depths, decode_instructions, generate_python_byte_code}
use pycompile.Frontend.Serialize.{serialize_byte_code_module}
use pycompile.Frontend.Tags.{HasPositions, AtDepth, generate_python_byte_code-IsModule}
use pycompile.Frontend.Written.{Succeeds, serialize-generate_python_byte_code}
use pycompile.Frontend.Compile.{compile_python, compile_python-contents}

data Item : Type 0 where
  number : ℕ → Item
  word : String → Item
  empty_tuple : Item
  positions : Item
  -- RETURN_VALUE at offset 0, and the code object that holds it alone
  instruction : Item
  code : Item

abbrev item_attr : Item → String → Option Item
item_attr instruction name =
    if str_eq name "offset"
    then some (number 0)
    else if str_eq name "opcode"
    then some (number 35)
    else if str_eq name "opname"
    then some (word "RETURN_VALUE")
    else if str_eq name "argrepr"
    then some (word "")
    else if str_eq name "starts_line"
    then some (number 1)
    else if str_eq name "positions"
    then some positions
    else if str_eq name "argval"
    then some (number 0)
    else none
item_attr positions name = if str_eq name "lineno" then some (number 1) else none
item_attr code name =
    if str_eq name "co_name"
    then some (word "<module>")
    else if str_eq name "co_argcount"
    then some (number 0)
    else if str_eq name "co_firstlineno"
    then some (number 1)
    else if str_eq name "co_freevars"
    then some empty_tuple
    else if str_eq name "co_cellvars"
    then some empty_tuple
    else if str_eq name "co_varnames"
    then some empty_tuple
    else none
item_attr _ name = none

abbrev is_number : Item → Bool
is_number (number n) = true
is_number _ = false

abbrev number_of : Item → ℤ
number_of (number n) = pos n
number_of _ = pos 0

abbrev is_text : Item → Bool
is_text (word t) = true
is_text _ = false

abbrev text_of : Item → String
text_of (word t) = t
text_of _ = ""

abbrev is_empty_tuple : Item → Bool
is_empty_tuple empty_tuple = true
is_empty_tuple _ = false

abbrev is_code_item : Item → Bool
is_code_item code = true
is_code_item _ = false

abbrev code_instructions : Item → Option (List Item)
code_instructions code = some (instruction ∷ [])
code_instructions _ = none

abbrev items : Python Item
items = record {
  attr = item_attr;
  is_bool = λ x. false;
  is_long = is_number;
  is_float = λ x. false;
  is_unicode = is_text;
  is_tuple = is_empty_tuple;
  is_frozen_set = λ x. false;
  is_code = is_code_item;
  is_none = λ x. false;
  is_true_object = λ x. false;
  is_true = is_number;
  as_long = number_of;
  as_double = λ x. 0;
  as_utf8 = λ x. some (text_of x);
  tuple_items = λ x. [];
  iterate = λ x. none;
  get_instructions = code_instructions;
  error_traceback = "traceback";
  stem = λ t. t;
}

items-HasPositions : HasPositions items
items-HasPositions instruction s e h = (positions, refl, refl)
items-HasPositions _ s e h = absurd (cc e)

generate_python_byte_code-IsModule_example :
    Yields (AtDepth depths) (generate_python_byte_code items depths "m" true code)
generate_python_byte_code-IsModule_example =
    generate_python_byte_code-IsModule items items-HasPositions depths "m" true code

-- The disassembly does yield a module.
code_disassembled :
    decode_instructions items (λ x. fail Error.undefined) (instruction ∷ []) (pos 1)
    ≡ ok (
        cons (instr 0 Opcode.return_value "" (some 1) true ArgvalType.int (Argval.int (pos 0))) nil)
unfolding decode_instructions
code_disassembled = refl

serialize-generate_python_byte_code_example :
    Yields
      (λ m. (depth : ℕ) → Succeeds (serialize_byte_code_module (λ d. "1.0") m depth))
      (generate_python_byte_code items depths "m" true code)
serialize-generate_python_byte_code_example =
    serialize-generate_python_byte_code items (λ d. "1.0") items-HasPositions "m" true code

compile_python-contents_example :
    compile_python items (λ t n. some code) ("x = 1" ∷ "y = 2" ∷ []) ("a" ∷ "b" ∷ [])
    ≡ compile_python items (λ t n. some code) ("x = 1" ∷ "z = 3" ∷ []) ("a" ∷ "b" ∷ [])
compile_python-contents_example =
    compile_python-contents items (λ t n. some code) "x = 1" ("y = 2" ∷ []) ("z = 3" ∷ [])
      ("a" ∷ "b" ∷ []) refl
