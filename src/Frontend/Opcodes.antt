-- ===== src/Frontend/Opcodes.antt =====
-- pycompile/src/bytecode/python_opcodes.cpp and .inc: opcodes by name.
use text.Mathlib.Text.{◌==◌ as str_eq}
use pycompile.Base.{String, List, [], ◌∷◌, if◌then◌else◌}
use pycompile.Bytecode.{Opcode}

-- The entries of the table that the code generator's switch names.
abbrev pub named : List (String × Opcode)
named =
    ("RESUME", Opcode.resume)
    ∷ ("NOT_TAKEN", Opcode.not_taken)
    ∷ ("END_FOR", Opcode.end_for)
    ∷ ("BUILD_STRING", Opcode.build_string)
    ∷ ("BUILD_LIST", Opcode.build_list)
    ∷ ("LIST_EXTEND", Opcode.list_extend)
    ∷ ("LIST_APPEND", Opcode.list_append)
    ∷ ("BUILD_SET", Opcode.build_set)
    ∷ ("SET_UPDATE", Opcode.set_update)
    ∷ ("SET_ADD", Opcode.set_add)
    ∷ ("BUILD_MAP", Opcode.build_map)
    ∷ ("MAP_ADD", Opcode.map_add)
    ∷ ("JUMP_FORWARD", Opcode.jump_forward)
    ∷ ("JUMP_BACKWARD", Opcode.jump_backward)
    ∷ ("POP_JUMP_IF_TRUE", Opcode.pop_jump_if_true)
    ∷ ("POP_JUMP_IF_FALSE", Opcode.pop_jump_if_false)
    ∷ ("GET_ITER", Opcode.get_iter)
    ∷ ("FOR_ITER", Opcode.for_iter)
    ∷ ("POP_ITER", Opcode.pop_iter)
    ∷ ("MAKE_FUNCTION", Opcode.make_function)
    ∷ ("CALL", Opcode.call)
    ∷ ("RETURN_VALUE", Opcode.return_value)
    ∷ ("BINARY_OP", Opcode.binary_op)
    ∷ ("COMPARE_OP", Opcode.compare_op)
    ∷ ("CONTAINS_OP", Opcode.contains_op)
    ∷ ("TO_BOOL", Opcode.to_bool)
    ∷ ("UNARY_NOT", Opcode.unary_not)
    ∷ ("UNARY_NEGATIVE", Opcode.unary_negative)
    ∷ ("UNARY_INVERT", Opcode.unary_invert)
    ∷ ("FORMAT_SIMPLE", Opcode.format_simple)
    ∷ ("LOAD_SMALL_INT", Opcode.load_small_int)
    ∷ ("LOAD_GLOBAL", Opcode.load_global)
    ∷ ("LOAD_FAST_BORROW", Opcode.load_fast_borrow)
    ∷ ("LOAD_CONST", Opcode.load_const)
    ∷ ("LOAD_ATTR", Opcode.load_attr)
    ∷ ("LOAD_NAME", Opcode.load_name)
    ∷ ("STORE_NAME", Opcode.store_name)
    ∷ ("LOAD_FAST", Opcode.load_fast)
    ∷ ("STORE_FAST", Opcode.store_fast)
    ∷ ("LOAD_DEREF", Opcode.load_deref)
    ∷ ("STORE_DEREF", Opcode.store_deref)
    ∷ ("STORE_SUBSCR", Opcode.store_subscr)
    ∷ ("STORE_FAST_LOAD_FAST", Opcode.store_fast_load_fast)
    ∷ ("LOAD_FAST_AND_CLEAR", Opcode.load_fast_and_clear)
    ∷ ("PUSH_NULL", Opcode.push_null)
    ∷ ("POP_TOP", Opcode.pop_top)
    ∷ ("COPY", Opcode.copy)
    ∷ ("SWAP", Opcode.swap)
    ∷ []

-- The names of the other entries.
abbrev pub others : List String
others =
    "CACHE" ∷ "BINARY_SLICE" ∷ "BUILD_TEMPLATE" ∷ "BINARY_OP_INPLACE_ADD_UNICODE"
    ∷ "CALL_FUNCTION_EX" ∷ "CHECK_EG_MATCH" ∷ "CHECK_EXC_MATCH" ∷ "CLEANUP_THROW" ∷ "DELETE_SUBSCR"
    ∷ "END_SEND" ∷ "EXIT_INIT_CHECK" ∷ "FORMAT_WITH_SPEC" ∷ "GET_AITER" ∷ "GET_ANEXT" ∷ "RESERVED"
    ∷ "GET_LEN" ∷ "GET_YIELD_FROM_ITER" ∷ "INTERPRETER_EXIT" ∷ "LOAD_BUILD_CLASS" ∷ "LOAD_LOCALS"
    ∷ "MATCH_KEYS" ∷ "MATCH_MAPPING" ∷ "MATCH_SEQUENCE" ∷ "NOP" ∷ "POP_EXCEPT" ∷ "PUSH_EXC_INFO"
    ∷ "RETURN_GENERATOR" ∷ "SETUP_ANNOTATIONS" ∷ "STORE_SLICE" ∷ "WITH_EXCEPT_START"
    ∷ "BUILD_INTERPOLATION" ∷ "BUILD_SLICE" ∷ "BUILD_TUPLE" ∷ "CALL_INTRINSIC_1"
    ∷ "CALL_INTRINSIC_2" ∷ "CALL_KW" ∷ "CONVERT_VALUE" ∷ "COPY_FREE_VARS" ∷ "DELETE_ATTR"
    ∷ "DELETE_DEREF" ∷ "DELETE_FAST" ∷ "DELETE_GLOBAL" ∷ "DELETE_NAME" ∷ "DICT_MERGE"
    ∷ "DICT_UPDATE" ∷ "END_ASYNC_FOR" ∷ "EXTENDED_ARG" ∷ "GET_AWAITABLE" ∷ "IMPORT_FROM"
    ∷ "IMPORT_NAME" ∷ "IS_OP" ∷ "JUMP_BACKWARD_NO_INTERRUPT" ∷ "LOAD_COMMON_CONSTANT"
    ∷ "LOAD_FAST_BORROW_LOAD_FAST_BORROW" ∷ "LOAD_FAST_CHECK" ∷ "LOAD_FAST_LOAD_FAST"
    ∷ "LOAD_FROM_DICT_OR_DEREF" ∷ "LOAD_FROM_DICT_OR_GLOBALS" ∷ "LOAD_SPECIAL" ∷ "LOAD_SUPER_ATTR"
    ∷ "MAKE_CELL" ∷ "MATCH_CLASS" ∷ "POP_JUMP_IF_NONE" ∷ "POP_JUMP_IF_NOT_NONE" ∷ "RAISE_VARARGS"
    ∷ "RERAISE" ∷ "SEND" ∷ "SET_FUNCTION_ATTRIBUTE" ∷ "STORE_ATTR" ∷ "STORE_FAST_STORE_FAST"
    ∷ "STORE_GLOBAL" ∷ "UNPACK_EX" ∷ "UNPACK_SEQUENCE" ∷ "YIELD_VALUE" ∷ "BINARY_OP_ADD_FLOAT"
    ∷ "BINARY_OP_ADD_INT" ∷ "BINARY_OP_ADD_UNICODE" ∷ "BINARY_OP_EXTEND"
    ∷ "BINARY_OP_MULTIPLY_FLOAT" ∷ "BINARY_OP_MULTIPLY_INT" ∷ "BINARY_OP_SUBSCR_DICT"
    ∷ "BINARY_OP_SUBSCR_GETITEM" ∷ "BINARY_OP_SUBSCR_LIST_INT" ∷ "BINARY_OP_SUBSCR_LIST_SLICE"
    ∷ "BINARY_OP_SUBSCR_STR_INT" ∷ "BINARY_OP_SUBSCR_TUPLE_INT" ∷ "BINARY_OP_SUBTRACT_FLOAT"
    ∷ "BINARY_OP_SUBTRACT_INT" ∷ "CALL_ALLOC_AND_ENTER_INIT" ∷ "CALL_BOUND_METHOD_EXACT_ARGS"
    ∷ "CALL_BOUND_METHOD_GENERAL" ∷ "CALL_BUILTIN_CLASS" ∷ "CALL_BUILTIN_FAST"
    ∷ "CALL_BUILTIN_FAST_WITH_KEYWORDS" ∷ "CALL_BUILTIN_O" ∷ "CALL_ISINSTANCE"
    ∷ "CALL_KW_BOUND_METHOD" ∷ "CALL_KW_NON_PY" ∷ "CALL_KW_PY" ∷ "CALL_LEN" ∷ "CALL_LIST_APPEND"
    ∷ "CALL_METHOD_DESCRIPTOR_FAST" ∷ "CALL_METHOD_DESCRIPTOR_FAST_WITH_KEYWORDS"
    ∷ "CALL_METHOD_DESCRIPTOR_NOARGS" ∷ "CALL_METHOD_DESCRIPTOR_O" ∷ "CALL_NON_PY_GENERAL"
    ∷ "CALL_PY_EXACT_ARGS" ∷ "CALL_PY_GENERAL" ∷ "CALL_STR_1" ∷ "CALL_TUPLE_1" ∷ "CALL_TYPE_1"
    ∷ "COMPARE_OP_FLOAT" ∷ "COMPARE_OP_INT" ∷ "COMPARE_OP_STR" ∷ "CONTAINS_OP_DICT"
    ∷ "CONTAINS_OP_SET" ∷ "FOR_ITER_GEN" ∷ "FOR_ITER_LIST" ∷ "FOR_ITER_RANGE" ∷ "FOR_ITER_TUPLE"
    ∷ "JUMP_BACKWARD_JIT" ∷ "JUMP_BACKWARD_NO_JIT" ∷ "LOAD_ATTR_CLASS"
    ∷ "LOAD_ATTR_CLASS_WITH_METACLASS_CHECK" ∷ "LOAD_ATTR_GETATTRIBUTE_OVERRIDDEN"
    ∷ "LOAD_ATTR_INSTANCE_VALUE" ∷ "LOAD_ATTR_METHOD_LAZY_DICT" ∷ "LOAD_ATTR_METHOD_NO_DICT"
    ∷ "LOAD_ATTR_METHOD_WITH_VALUES" ∷ "LOAD_ATTR_MODULE" ∷ "LOAD_ATTR_NONDESCRIPTOR_NO_DICT"
    ∷ "LOAD_ATTR_NONDESCRIPTOR_WITH_VALUES" ∷ "LOAD_ATTR_PROPERTY" ∷ "LOAD_ATTR_SLOT"
    ∷ "LOAD_ATTR_WITH_HINT" ∷ "LOAD_CONST_IMMORTAL" ∷ "LOAD_CONST_MORTAL" ∷ "LOAD_GLOBAL_BUILTIN"
    ∷ "LOAD_GLOBAL_MODULE" ∷ "LOAD_SUPER_ATTR_ATTR" ∷ "LOAD_SUPER_ATTR_METHOD" ∷ "RESUME_CHECK"
    ∷ "SEND_GEN" ∷ "STORE_ATTR_INSTANCE_VALUE" ∷ "STORE_ATTR_SLOT" ∷ "STORE_ATTR_WITH_HINT"
    ∷ "STORE_SUBSCR_DICT" ∷ "STORE_SUBSCR_LIST_INT" ∷ "TO_BOOL_ALWAYS_TRUE" ∷ "TO_BOOL_BOOL"
    ∷ "TO_BOOL_INT" ∷ "TO_BOOL_LIST" ∷ "TO_BOOL_NONE" ∷ "TO_BOOL_STR" ∷ "UNPACK_SEQUENCE_LIST"
    ∷ "UNPACK_SEQUENCE_TUPLE" ∷ "UNPACK_SEQUENCE_TWO_TUPLE" ∷ "INSTRUMENTED_END_FOR"
    ∷ "INSTRUMENTED_POP_ITER" ∷ "INSTRUMENTED_END_SEND" ∷ "INSTRUMENTED_FOR_ITER"
    ∷ "INSTRUMENTED_INSTRUCTION" ∷ "INSTRUMENTED_JUMP_FORWARD" ∷ "INSTRUMENTED_NOT_TAKEN"
    ∷ "INSTRUMENTED_POP_JUMP_IF_TRUE" ∷ "INSTRUMENTED_POP_JUMP_IF_FALSE"
    ∷ "INSTRUMENTED_POP_JUMP_IF_NONE" ∷ "INSTRUMENTED_POP_JUMP_IF_NOT_NONE" ∷ "INSTRUMENTED_RESUME"
    ∷ "INSTRUMENTED_RETURN_VALUE" ∷ "INSTRUMENTED_YIELD_VALUE" ∷ "INSTRUMENTED_END_ASYNC_FOR"
    ∷ "INSTRUMENTED_LOAD_SUPER_ATTR" ∷ "INSTRUMENTED_CALL" ∷ "INSTRUMENTED_CALL_KW"
    ∷ "INSTRUMENTED_CALL_FUNCTION_EX" ∷ "INSTRUMENTED_JUMP_BACKWARD" ∷ "INSTRUMENTED_LINE"
    ∷ "ENTER_EXECUTOR" ∷ "ANNOTATIONS_PLACEHOLDER" ∷ "JUMP" ∷ "JUMP_IF_FALSE" ∷ "JUMP_IF_TRUE"
    ∷ "JUMP_NO_INTERRUPT" ∷ "LOAD_CLOSURE" ∷ "POP_BLOCK" ∷ "SETUP_CLEANUP" ∷ "SETUP_FINALLY"
    ∷ "SETUP_WITH" ∷ "STORE_FAST_MAYBE_NULL" ∷ "HAVE_ARGUMENT" ∷ "MIN_SPECIALIZED_OPCODE"
    ∷ "MIN_INSTRUMENTED_OPCODE" ∷ []

-- A name that the table lacks is `UNKNOWN`.
abbrev pub unknown : Opcode
unknown = Opcode.other "UNKNOWN"

abbrev pub find_other : String → List String → Opcode
find_other name [] = unknown
find_other name (n ∷ ns) = if str_eq n name then Opcode.other n else find_other name ns

abbrev pub find_named : String → List (String × Opcode) → Opcode
find_named name [] = find_other name others
find_named name ((n, o) ∷ ns) = if str_eq n name then o else find_named name ns

unfoldable pub python_opcode_from_string : String → Opcode
python_opcode_from_string name = find_named name named

unfoldable pub python_opcode_to_string : Opcode → String
python_opcode_to_string Opcode.resume = "RESUME"
python_opcode_to_string Opcode.not_taken = "NOT_TAKEN"
python_opcode_to_string Opcode.end_for = "END_FOR"
python_opcode_to_string Opcode.build_string = "BUILD_STRING"
python_opcode_to_string Opcode.build_list = "BUILD_LIST"
python_opcode_to_string Opcode.list_extend = "LIST_EXTEND"
python_opcode_to_string Opcode.list_append = "LIST_APPEND"
python_opcode_to_string Opcode.build_set = "BUILD_SET"
python_opcode_to_string Opcode.set_update = "SET_UPDATE"
python_opcode_to_string Opcode.set_add = "SET_ADD"
python_opcode_to_string Opcode.build_map = "BUILD_MAP"
python_opcode_to_string Opcode.map_add = "MAP_ADD"
python_opcode_to_string Opcode.jump_forward = "JUMP_FORWARD"
python_opcode_to_string Opcode.jump_backward = "JUMP_BACKWARD"
python_opcode_to_string Opcode.pop_jump_if_true = "POP_JUMP_IF_TRUE"
python_opcode_to_string Opcode.pop_jump_if_false = "POP_JUMP_IF_FALSE"
python_opcode_to_string Opcode.get_iter = "GET_ITER"
python_opcode_to_string Opcode.for_iter = "FOR_ITER"
python_opcode_to_string Opcode.pop_iter = "POP_ITER"
python_opcode_to_string Opcode.make_function = "MAKE_FUNCTION"
python_opcode_to_string Opcode.call = "CALL"
python_opcode_to_string Opcode.return_value = "RETURN_VALUE"
python_opcode_to_string Opcode.binary_op = "BINARY_OP"
python_opcode_to_string Opcode.compare_op = "COMPARE_OP"
python_opcode_to_string Opcode.contains_op = "CONTAINS_OP"
python_opcode_to_string Opcode.to_bool = "TO_BOOL"
python_opcode_to_string Opcode.unary_not = "UNARY_NOT"
python_opcode_to_string Opcode.unary_negative = "UNARY_NEGATIVE"
python_opcode_to_string Opcode.unary_invert = "UNARY_INVERT"
python_opcode_to_string Opcode.format_simple = "FORMAT_SIMPLE"
python_opcode_to_string Opcode.load_small_int = "LOAD_SMALL_INT"
python_opcode_to_string Opcode.load_global = "LOAD_GLOBAL"
python_opcode_to_string Opcode.load_fast_borrow = "LOAD_FAST_BORROW"
python_opcode_to_string Opcode.load_const = "LOAD_CONST"
python_opcode_to_string Opcode.load_attr = "LOAD_ATTR"
python_opcode_to_string Opcode.load_name = "LOAD_NAME"
python_opcode_to_string Opcode.store_name = "STORE_NAME"
python_opcode_to_string Opcode.load_fast = "LOAD_FAST"
python_opcode_to_string Opcode.store_fast = "STORE_FAST"
python_opcode_to_string Opcode.load_deref = "LOAD_DEREF"
python_opcode_to_string Opcode.store_deref = "STORE_DEREF"
python_opcode_to_string Opcode.store_subscr = "STORE_SUBSCR"
python_opcode_to_string Opcode.store_fast_load_fast = "STORE_FAST_LOAD_FAST"
python_opcode_to_string Opcode.load_fast_and_clear = "LOAD_FAST_AND_CLEAR"
python_opcode_to_string Opcode.push_null = "PUSH_NULL"
python_opcode_to_string Opcode.pop_top = "POP_TOP"
python_opcode_to_string Opcode.copy = "COPY"
python_opcode_to_string Opcode.swap = "SWAP"
python_opcode_to_string (Opcode.other name) = name
