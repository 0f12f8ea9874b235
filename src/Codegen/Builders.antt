-- ===== src/Codegen/Builders.antt =====
-- pycompile/src/conversion/builder_codegen.cpp.
use pycompile.Base.{[], ◌∷◌}
use pycompile.Base.Int.{pos, ◌*ℤ◌}
use pycompile.Bytecode.{Argval}
use pycompile.Pyir.{OpName}
use pycompile.Codegen.State.{
  Error, Gen, ◌>>=◌, push, pop, stack_at, pop_parts, want_int, create, create_void,
}

unfoldable pub build_string_codegen : Argval → Gen (Unit {0})
unfolding push pop_parts want_int create
build_string_codegen argval = do
  count ← want_int (Error.runtime_error "BUILD_STRING must have an int argval") argval
  parts ← pop_parts count
  v ← create OpName.build_string parts
  push v

unfoldable pub build_list_codegen : Argval → Gen (Unit {0})
unfolding push pop_parts want_int create
build_list_codegen argval = do
  count ← want_int (Error.runtime_error "BUILD_LIST must have an int argval") argval
  parts ← pop_parts count
  v ← create OpName.build_list parts
  push v

unfoldable pub list_extend_codegen : Argval → Gen (Unit {0})
unfolding pop stack_at want_int create_void
list_extend_codegen argval = do
  idx ← want_int (Error.runtime_error "LIST_EXTEND must have an int argval") argval
  items ← pop
  list ← stack_at idx
  create_void OpName.list_extend (list ∷ items ∷ [])

unfoldable pub list_append_codegen : Argval → Gen (Unit {0})
unfolding pop stack_at want_int create_void
list_append_codegen argval = do
  idx ← want_int (Error.runtime_error "LIST_APPEND must have an int argval") argval
  item ← pop
  list ← stack_at idx
  create_void OpName.list_append (list ∷ item ∷ [])

unfoldable pub build_set_codegen : Argval → Gen (Unit {0})
unfolding push pop_parts want_int create
build_set_codegen argval = do
  count ← want_int (Error.runtime_error "BUILD_SET must have an int argval") argval
  parts ← pop_parts count
  v ← create OpName.build_set parts
  push v

unfoldable pub set_update_codegen : Argval → Gen (Unit {0})
unfolding pop stack_at want_int create_void
set_update_codegen argval = do
  idx ← want_int (Error.runtime_error "SET_UPDATE must have an int argval") argval
  items ← pop
  set ← stack_at idx
  create_void OpName.set_update (set ∷ items ∷ [])

unfoldable pub set_add_codegen : Argval → Gen (Unit {0})
unfolding pop stack_at want_int create_void
set_add_codegen argval = do
  idx ← want_int (Error.runtime_error "SET_ADD must have an int argval") argval
  item ← pop
  set ← stack_at idx
  create_void OpName.set_add (set ∷ item ∷ [])

-- Python counts in pairs, so the count is doubled.
unfoldable pub build_map_codegen : Argval → Gen (Unit {0})
unfolding push pop_parts want_int create ◌*ℤ◌
build_map_codegen argval = do
  count ← want_int (Error.runtime_error "BUILD_MAP must have an int argval") argval
  parts ← pop_parts (count *ℤ pos 2)
  v ← create OpName.build_map parts
  push v

unfoldable pub map_add_codegen : Argval → Gen (Unit {0})
unfolding pop stack_at want_int create_void
map_add_codegen argval = do
  idx ← want_int (Error.runtime_error "MAP_ADD must have an int argval") argval
  value ← pop
  key ← pop
  dict ← stack_at idx
  create_void OpName.map_add (dict ∷ key ∷ value ∷ [])
