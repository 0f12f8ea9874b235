-- ===== src/Lowering/Constants.antt =====
-- pycompile/src/lowering/memory_lowering.cpp: names and constants.
use Prim.Native.String.{◌++◌ as str_append}
use pycompile.Base.{ℕ, suc, Bool, true, false, List, [], ◌∷◌, String, length, if◌then◌else◌}
use pycompile.Base.Int.{ℤ, pos}
use pycompile.Base.Text.{to_string}
use pycompile.Pyir.{Value, Scalar, Attr}
use pycompile.Lowering.Rewriter.{
  LlvmType, FnType, LlvmOp, Built, Build, ◌>>=◌, ◌>>◌, pure, create, create_void,
  get_or_insert_runtime_fn, get_or_insert_string_constant, Rewritten, replaced, call_fn,
}
use pycompile.Lowering.Arrays.{array_fn, new_array, store_at}

abbrev pub name_symbol : String → String
name_symbol name = str_append "__pyir_str_" name

abbrev pub one_ptr : FnType
one_ptr = record { returns = LlvmType.ptr; takes = LlvmType.ptr ∷ [] }

unfoldable pub insert_load_runtime_func : String → String → Build Rewritten
unfolding get_or_insert_runtime_fn get_or_insert_string_constant create
insert_load_runtime_func func var_name = do
  get_or_insert_runtime_fn func one_ptr
  str ← get_or_insert_string_constant (name_symbol var_name) var_name
  call_fn true func (str ∷ [])

abbrev pub two_ptrs_void : FnType
two_ptrs_void = record { returns = LlvmType.void; takes = LlvmType.ptr ∷ LlvmType.ptr ∷ [] }

unfoldable pub insert_store_runtime_func : String → String → Value → Build Rewritten
unfolding get_or_insert_runtime_fn get_or_insert_string_constant create_void
insert_store_runtime_func func var_name value = do
  get_or_insert_runtime_fn func two_ptrs_void
  str ← get_or_insert_string_constant (name_symbol var_name) var_name
  call_fn false func (str ∷ value ∷ [])

unfoldable pub lower_init_module : String → String → Build Rewritten
unfolding get_or_insert_runtime_fn get_or_insert_string_constant create_void
lower_init_module file name = do
  get_or_insert_runtime_fn "pyir_initModule" two_ptrs_void
  file_ptr ← get_or_insert_string_constant (name_symbol file) file
  name_ptr ← get_or_insert_string_constant (name_symbol name) name
  call_fn false "pyir_initModule" (file_ptr ∷ name_ptr ∷ [])

-- `std::hash<std::string>`, which a constant's symbol is named by.
abbrev pub Hash : Type 0
Hash = String → ℕ

abbrev pub constant_symbol : Hash → String → String
constant_symbol hash text = str_append "__pyir_const_str_" (to_string (hash text))

unfoldable pub load_string_const : Hash → String → Build Value
unfolding get_or_insert_runtime_fn get_or_insert_string_constant create to_string
load_string_const hash text = do
  get_or_insert_runtime_fn "pyir_loadConstStr" one_ptr
  str ← get_or_insert_string_constant (constant_symbol hash text) text
  create (LlvmOp.call "pyir_loadConstStr" (str ∷ []))

abbrev pub takes_one : LlvmType → FnType
takes_one type = record { returns = LlvmType.ptr; takes = type ∷ [] }

unfoldable pub load_bool_const : Bool → Build Value
unfolding get_or_insert_runtime_fn create
load_bool_const b = do
  get_or_insert_runtime_fn "pyir_loadConstBool" (takes_one LlvmType.i8)
  v ← create (LlvmOp.const_i8 (if b then 1 else 0))
  create (LlvmOp.call "pyir_loadConstBool" (v ∷ []))

unfoldable pub load_int_const : ℤ → Build Value
unfolding get_or_insert_runtime_fn create
load_int_const i = do
  get_or_insert_runtime_fn "pyir_loadConstInt" (takes_one LlvmType.i64)
  v ← create (LlvmOp.const_i64 i)
  create (LlvmOp.call "pyir_loadConstInt" (v ∷ []))

unfoldable pub load_float_const : ℕ → Build Value
unfolding get_or_insert_runtime_fn create
load_float_const d = do
  get_or_insert_runtime_fn "pyir_loadConstFloat" (takes_one LlvmType.f64)
  v ← create (LlvmOp.const_f64 d)
  create (LlvmOp.call "pyir_loadConstFloat" (v ∷ []))

unfoldable pub load_none_const : Build Value
unfolding get_or_insert_runtime_fn create
load_none_const = do
  get_or_insert_runtime_fn "pyir_loadConstNone" (record { returns = LlvmType.ptr; takes = [] })
  create (LlvmOp.call "pyir_loadConstNone" [])

-- An element of a tuple.
unfoldable pub load_element : Hash → Scalar → Build Value
unfolding load_string_const load_bool_const load_int_const load_float_const
load_element hash (Scalar.str text) = load_string_const hash text
load_element hash (Scalar.bool b) = load_bool_const b
load_element hash (Scalar.int i) = load_int_const i
load_element hash (Scalar.float d) = load_float_const d
load_element hash Scalar.null = λ r. Built.undefined

-- The loop over the elements, from index `i` on.
unfoldable pub store_elements : Hash → Value → ℕ → List Scalar → Build (Unit {0})
unfolding load_element store_at
store_elements hash array i [] = pure tt
store_elements hash array i (c ∷ cs) = do
  v ← load_element hash c
  store_at array i v
  store_elements hash array (suc i) cs

abbrev pub parts_array : Hash → List Scalar → Build Value
parts_array hash [] = create LlvmOp.zero_ptr
parts_array hash (c ∷ cs) = do
  array ← new_array (suc (length cs))
  store_elements hash array 0 (c ∷ cs)
  pure array

unfoldable pub load_tuple_const : Hash → List Scalar → Build Value
unfolding get_or_insert_runtime_fn new_array store_elements create
load_tuple_const hash items = do
  get_or_insert_runtime_fn "pyir_loadConstTuple" array_fn
  parts ← parts_array hash items
  count ← create (LlvmOp.const_i64 (pos (length items)))
  create (LlvmOp.call "pyir_loadConstTuple" (parts ∷ count ∷ []))

abbrev pub constant : Hash → Attr → Build Value
constant hash (Attr.scalar (Scalar.str text)) = load_string_const hash text
constant hash (Attr.scalar (Scalar.bool b)) = load_bool_const b
constant hash (Attr.scalar (Scalar.int i)) = load_int_const i
constant hash (Attr.scalar (Scalar.float d)) = load_float_const d
constant hash Attr.none = load_none_const
constant hash (Attr.array items) = load_tuple_const hash items
constant hash (Attr.scalar Scalar.null) = λ r. Built.undefined

unfoldable pub lower_load_const : Hash → Attr → Build Rewritten
unfolding load_string_const load_bool_const load_int_const load_float_const load_none_const
    load_tuple_const
lower_load_const hash value = do v ← constant hash value; pure (replaced v)
