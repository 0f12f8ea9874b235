-- ===== src/Codegen/Memory.antt =====
-- pycompile/src/conversion/memory_codegen.cpp.
use Prim.Native.String.{◌++◌ as str_append}
use pycompile.Base.Text.{to_string}
use pycompile.Base.{
  ℕ, ◌+◌, ◌-◌, List, [], ◌∷◌, none, some, String, length, get_elem?, map, if◌then◌else◌,
}
use pycompile.Base.Int.{ℤ, pos, ltb_ℤ, pos_part}
use pycompile.Base.Assoc.{insert}
use pycompile.Bytecode.{Primitive, ArgvalType, CodeInfo, Argval}
use pycompile.Pyir.{Scalar, Attr, OpName}
use pycompile.Codegen.State.{
  Error, State, Gen, ◌>>=◌, ◌>>◌, pure, throw, get, modify, push, pop, want_int, want_str, create,
  create_void,
}

-- An element of a `std::vector<std::string>` by `operator[]`; out of bounds is undefined.
unfoldable pub name_at : List String → ℤ → Gen String
name_at names (pos i) s = elim (get_elem? names i) [
  | none ↦ throw Error.undefined s
  | some n ↦ pure n s
]
name_at names _ s = throw Error.undefined s

-- `resolveDeref`; a negative index falls to the first test.
unfoldable pub resolve_deref : CodeInfo → ℤ → Gen String
unfolding name_at
resolve_deref info idx =
    let cells_start = length info.varnames in
    let free_start = cells_start + length info.cellvars in
    if ltb_ℤ idx (pos cells_start)
    then name_at info.varnames idx
    else if ltb_ℤ idx (pos free_start)
    then name_at info.cellvars (pos (pos_part idx - cells_start))
    else name_at info.freevars (pos (pos_part idx - free_start))

unfoldable pub load_small_int_codegen : Argval → Gen (Unit {0})
unfolding push want_int create
load_small_int_codegen argval = do
  target ← want_int (Error.compile_error "LOAD_SMALL_INT must have an int argval") argval
  v ← create (OpName.load_const (Attr.scalar (Scalar.int target))) []
  push v

unfoldable pub load_global_codegen : Argval → Gen (Unit {0})
unfolding push want_str create
load_global_codegen argval = do
  name ← want_str (Error.compile_error "LOAD_GLOBAL must have a string argval") argval
  v ← create (OpName.load_name name) []
  push v
  n ← create OpName.push_null []
  push n

unfoldable pub load_fast_borrow_codegen : Argval → Gen (Unit {0})
unfolding push want_str create
load_fast_borrow_codegen argval = do
  name ← want_str (Error.compile_error "LOAD_FAST_BORROW must have a string argval") argval
  v ← create (OpName.load_fast name) []
  push v

unfoldable pub load_name_codegen : Argval → Gen (Unit {0})
unfolding push want_str create
load_name_codegen argval = do
  name ← want_str (Error.compile_error "LOAD_NAME must have a string argval") argval
  v ← create (OpName.load_name name) []
  push v

unfoldable pub store_name_codegen : Argval → Gen (Unit {0})
unfolding pop want_str create_void
store_name_codegen argval = do
  name ← want_str (Error.compile_error "STORE_NAME must have a string argval") argval
  val ← pop
  create_void (OpName.store_name name) (val ∷ [])

unfoldable pub load_fast_codegen : Argval → Gen (Unit {0})
unfolding push want_str create
load_fast_codegen argval = do
  name ← want_str (Error.compile_error "LOAD_FAST must have a string argval") argval
  v ← create (OpName.load_fast name) []
  push v

unfoldable pub store_fast_codegen : Argval → Gen (Unit {0})
unfolding pop want_str create_void
store_fast_codegen argval = do
  name ← want_str (Error.compile_error "STORE_FAST must have a string argval") argval
  val ← pop
  create_void (OpName.store_fast name) (val ∷ [])

unfoldable pub load_deref_codegen : CodeInfo → Argval → Gen (Unit {0})
unfolding push want_int create resolve_deref
load_deref_codegen info argval = do
  idx ← want_int (Error.compile_error "LOAD_DEREF must have an int argval") argval
  name ← resolve_deref info idx
  v ← create (OpName.load_deref name) []
  push v

unfoldable pub store_deref_codegen : CodeInfo → Argval → Gen (Unit {0})
unfolding pop want_int create_void resolve_deref
store_deref_codegen info argval = do
  idx ← want_int (Error.compile_error "STORE_DEREF must have an int argval") argval
  name ← resolve_deref info idx
  val ← pop
  create_void (OpName.store_deref name) (val ∷ [])

-- `getArrayAttr`: a None becomes a default-constructed, null attribute.
unfoldable pub scalar_of : Primitive → Scalar
scalar_of Primitive.none = Scalar.null
scalar_of (Primitive.str t) = Scalar.str t
scalar_of (Primitive.int i) = Scalar.int i
scalar_of (Primitive.float d) = Scalar.float d
scalar_of (Primitive.bool b) = Scalar.bool b

unfoldable pub get_array_attr : List Primitive → Attr
unfolding scalar_of
get_array_attr tuple = Attr.array (map scalar_of tuple)

-- The attribute of a constant that is neither None nor code: `std::get` by the argval type, which
-- throws where the variant holds another alternative.
unfoldable pub const_attr : ArgvalType → String → Argval → Gen Attr
unfolding get_array_attr
const_attr ArgvalType.str repr (Argval.str t) = pure (Attr.scalar (Scalar.str t))
const_attr ArgvalType.str repr _ = throw Error.bad_variant
const_attr ArgvalType.int repr (Argval.int i) = pure (Attr.scalar (Scalar.int i))
const_attr ArgvalType.int repr _ = throw Error.bad_variant
const_attr ArgvalType.float repr (Argval.float d) = pure (Attr.scalar (Scalar.float d))
const_attr ArgvalType.float repr _ = throw Error.bad_variant
const_attr ArgvalType.bool repr (Argval.bool b) = pure (Attr.scalar (Scalar.bool b))
const_attr ArgvalType.bool repr _ = throw Error.bad_variant
const_attr ArgvalType.tuple_str repr (Argval.tuple vs) = pure (get_array_attr vs)
const_attr ArgvalType.tuple_str repr _ = throw Error.bad_variant
const_attr ArgvalType.frozen_set repr (Argval.tuple vs) = pure (get_array_attr vs)
const_attr ArgvalType.frozen_set repr _ = throw Error.bad_variant
const_attr _ repr argval =
    throw (Error.compile_error (str_append "LOAD_CONST unknown argval type " repr))

-- LOAD_CONST of None: a value inside a function, and nothing at all at module level.
unfoldable pub load_none_codegen : Gen (Unit {0})
unfolding push create
load_none_codegen = do
  s ← get
  if s.is_function then (do v ← create (OpName.load_const Attr.none) []; push v) else pure tt

-- LOAD_CONST of any other constant but a code object.
unfoldable pub load_attr_const_codegen : ArgvalType → String → Argval → Gen (Unit {0})
unfolding push create const_attr
load_attr_const_codegen type repr argval = do
  attr ← const_attr type repr argval
  v ← create (OpName.load_const attr) []
  push v

-- LOAD_CONST of a code object: `emit` builds the nested function of the given name at module level.
-- The sentinel is created before the guard restores the insertion point.
unfoldable pub load_code_codegen : String → (String → Gen (Unit {0})) → Gen (Unit {0})
unfolding push create to_string
load_code_codegen code_name emit = do
  s ← get
  let fn_name =
      str_append (str_append "__pyfn_" code_name) (str_append "_" (to_string s.fn_counter))
  modify (λ (t : State). record t { fn_counter = t.fn_counter + 1 })
  emit fn_name
  sentinel ← create OpName.push_null []
  modify
      (λ (t : State). record t { pending_functions = insert sentinel fn_name t.pending_functions })
  push sentinel
  modify (λ (t : State). record t { at_fn = s.at_fn; at_block = s.at_block; at_pos = s.at_pos })

unfoldable pub load_attr_codegen : Argval → Gen (Unit {0})
unfolding push pop want_str create
load_attr_codegen argval = do
  name ← want_str (Error.compile_error "LOAD_ATTR must have a string argval") argval
  obj ← pop
  v ← create (OpName.load_attr name) (obj ∷ [])
  push v
  n ← create OpName.push_null []
  push n

unfoldable pub store_subscr_codegen : Gen (Unit {0})
unfolding pop create_void
store_subscr_codegen = do
  idx ← pop
  collection ← pop
  value ← pop
  create_void OpName.store_subscr (collection ∷ idx ∷ value ∷ [])

-- `std::get<std::string>(arg->at(i))`
unfoldable pub str_at : List Primitive → ℕ → Gen String
str_at arg i s = elim (get_elem? arg i) [
  | none ↦ throw Error.out_of_range s
  | some p ↦ elim p [ Primitive.str t ↦ pure t s | _ ↦ throw Error.bad_variant s ]
]

-- The second name is read and not used: the value just stored is pushed back.
unfoldable pub store_fast_load_fast : List Primitive → Gen (Unit {0})
unfolding push pop create_void str_at
store_fast_load_fast arg = do
  store_name ← str_at arg 0
  load_name ← str_at arg 1
  val ← pop
  create_void (OpName.store_fast store_name) (val ∷ [])
  push val

unfoldable pub store_fast_load_fast_codegen : Argval → Gen (Unit {0})
unfolding store_fast_load_fast
store_fast_load_fast_codegen (Argval.tuple arg) = store_fast_load_fast arg
store_fast_load_fast_codegen _ =
    throw (Error.compile_error "STORE_FAST_LOAD_FAST must have an tuplestr argval")

unfoldable pub load_fast_and_clear_codegen : Argval → Gen (Unit {0})
unfolding push want_str create
load_fast_and_clear_codegen argval = do
  name ← want_str (Error.compile_error "LOAD_FAST_AND_CLEAR must have a string argval") argval
  v ← create (OpName.load_fast_and_clear name) []
  push v
