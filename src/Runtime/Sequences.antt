-- ===== src/Runtime/Sequences.antt =====
-- pystd/src/pytypes/iterables/py_list.cpp and py_tuple.cpp, with `pyir_idx` of logical_runtime.cpp:
-- subscripts of lists and tuples, and growing a list.
use Prim.Native.String.{◌++◌ as str_append}
use pycompile.Base.{
  ℕ, suc, ◌-◌, List, [], ◌∷◌, ◌++◌, Option, none, some, String, length, get_elem?, ltb,
  if◌then◌else◌,
}
use pycompile.Base.Int.{ℤ, pos, negsuc}
use pycompile.Runtime.Heap.{Addr, Obj, Container, Cell, cell_at, put, none_addr}
use pycompile.Runtime.State.{
  Exception, Outcome, ok, thrown, undefined, Run, and_then, ◌>>=◌, ◌>>◌, pure, throw, decref,
  add_ref, new_obj,
}

-- `typeName()`
unfoldable pub type_name : Obj → String
type_name Obj.none_obj = "NoneType"
type_name (Obj.bool b) = "bool"
type_name (Obj.int i) = "int"
type_name (Obj.float d) = "float"
type_name (Obj.str t) = "str"
type_name (Obj.list xs) = "list"
type_name (Obj.tuple xs) = "tuple"
type_name (Obj.set xs) = "set"
type_name (Obj.dict kvs) = "dict"
type_name (Obj.function name) = "function"
type_name (Obj.method name self) = "function"
type_name (Obj.iter Container.str_iter c n) = "str_iterator"
type_name (Obj.iter Container.list_iter c n) = "list_iterator"
type_name (Obj.iter Container.set_iter c n) = "set_iterator"
type_name (Obj.iter Container.tuple_iter c n) = "tuple_iterator"
type_name (Obj.iter Container.dict_iter c n) = "dict_iterator"

abbrev pub read_cell : Option Cell → Run Obj
read_cell none s = undefined
read_cell (some c) s = ok c.obj s

-- `dynamic_cast` of a pointer looks at the object.
unfoldable pub obj_at : Addr → Run Obj
obj_at a s = read_cell (cell_at s.heap a) s

-- A negative index counts from the end; `none` is out of range.
unfoldable pub index_in : ℤ → ℕ → Option ℕ
index_in (pos i) size = if ltb i size then some i else none
index_in (negsuc i) size = if ltb i size then some (size - suc i) else none

abbrev pub element : List Addr → Option ℕ → Option Addr
element xs none = none
element xs (some i) = get_elem? xs i

abbrev pub share : String → Option Addr → Run Addr
share message none = throw (Exception.index_error message)
share message (some x) = do add_ref x; pure x

abbrev pub list_index : List Addr → Obj → Run Addr
list_index xs (Obj.int i) = share "list index out of range" (element xs (index_in i (length xs)))
list_index xs obj =
    throw (Exception.type_error (str_append "list indices must be integers, not " (type_name obj)))

-- `PyList::idx`
unfoldable pub list_idx : List Addr → Addr → Run Addr
unfolding obj_at type_name index_in add_ref
list_idx xs idx = do obj ← obj_at idx; list_index xs obj

abbrev pub tuple_index : List Addr → Obj → Run Addr
tuple_index xs (Obj.int i) = share "tuple index out of range" (element xs (index_in i (length xs)))
tuple_index xs obj = throw (Exception.type_error "tuple indices must be integers")

-- `PyTuple::idx`
unfoldable pub tuple_idx : List Addr → Addr → Run Addr
unfolding obj_at index_in add_ref
tuple_idx xs idx = do obj ← obj_at idx; tuple_index xs obj

-- `try { r = run; first; second; return r; } catch (...) { first; second; throw; }`
abbrev pub settle : {A : Type 0} → Outcome A → Run (Unit {0}) → Outcome A
settle (ok a s) k = and_then (k s) (λ _. pure a)
settle (thrown e s) k = and_then (k s) (λ _. throw e)
settle undefined k = undefined

-- `pyir_idx`, where `method` is the object's `idx`.
unfoldable pub pyir_idx : (Addr → Run Addr) → Addr → Addr → Run Addr
unfolding decref
pyir_idx method obj idx s = settle (method idx s) (decref idx >> decref obj)

abbrev pub append_to : Option Cell → Addr → Addr → Run Addr
append_to none self x s = undefined
append_to (some c) self x s = elim c.obj [
  | Obj.list xs ↦
      ok none_addr
        (record s { heap = put s.heap self (some (record c { obj = Obj.list (xs ++ (x ∷ [])) })) })
  | _ ↦ thrown (Exception.type_error "Can only append to list types") s
]

-- `PyList::append` with one argument: the list holds a reference of its own. The class of `self` is
-- tested before the reference is made.
abbrev pub list_check : Obj → Run (Unit {0})
list_check (Obj.list xs) = pure tt
list_check obj = throw (Exception.type_error "Can only append to list types")

unfoldable pub list_append : Addr → List Addr → Run Addr
unfolding obj_at add_ref
list_append self (x ∷ []) = do
  obj ← obj_at self
  list_check obj
  add_ref x
  (λ s. append_to (cell_at s.heap self) self x s)
list_append self args = throw (Exception.type_error "append() takes exactly one argument")

-- `pyir_listAppend`
unfoldable pub pyir_list_append : Addr → Addr → Run (Unit {0})
unfolding list_append decref
pyir_list_append list item = do _ ← list_append list (item ∷ []); decref item

-- `pyir_buildList`: the references of the parts pass to the list.
unfoldable pub build_list : List Addr → Run Addr
unfolding new_obj
build_list parts = new_obj (Obj.list parts)
