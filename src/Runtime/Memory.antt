-- ===== src/Runtime/Memory.antt =====
-- pystd/src/memory_runtime.cpp: variables and constants.
use Prim.Native.String.{◌++◌ as str_append}
use pycompile.Base.{ℕ, ◌==◌, List, [], ◌∷◌, Option, none, some, String, if◌then◌else◌}
use pycompile.Base.Int.{ℤ}
use pycompile.Runtime.Heap.{Addr, Obj, none_addr, true_addr, false_addr}
use pycompile.Runtime.State.{
  Scope, Exception, ok, undefined, Run, ◌>>◌, pure, throw, find, assign, new_obj, decref, add_ref,
}

-- The value of a local, with a new reference.
abbrev pub fast_value : String → Option Addr → Run Addr
fast_value name none = throw (
    Exception.name_error
      (str_append "Local variable '" (str_append name "' referenced before assignment")))
fast_value name (some a) = do add_ref a; pure a

abbrev no_scope : {A : Type 0} → String → String → Run A
no_scope action name = throw (
    Exception.runtime_error (
      str_append "No active scope to " (str_append action (str_append " '" (str_append name "'")))))

abbrev load_fast_in : String → List Scope → Run Addr
load_fast_in name [] = no_scope "load" name
load_fast_in name (locals ∷ outer) = fast_value name (find name locals)

unfoldable pub load_fast : String → Run Addr
unfolding add_ref
load_fast name s = load_fast_in name s.scopes s

-- `locals[name] = PyNone::None` after the value was read.
abbrev clear_local : String → List Scope → Run (Unit {0})
clear_local name [] s = ok tt s
clear_local name (locals ∷ outer) s =
    ok tt (record s { scopes = assign name none_addr locals ∷ outer })

abbrev take_local : String → Option Addr → Run Addr
take_local name none = pure none_addr
take_local name (some a) = do add_ref a; (λ s. clear_local name s.scopes s); pure a

abbrev load_fast_and_clear_in : String → List Scope → Run Addr
load_fast_and_clear_in name [] = no_scope "load" name
load_fast_and_clear_in name (locals ∷ outer) = take_local name (find name locals)

unfoldable pub load_fast_and_clear : String → Run Addr
unfolding add_ref
load_fast_and_clear name s = load_fast_and_clear_in name s.scopes s

abbrev store_fast_in : String → Addr → List Scope → Run (Unit {0})
store_fast_in name value [] s = no_scope "store" name s
store_fast_in name value (locals ∷ outer) s =
    ok tt (record s { scopes = assign name value locals ∷ outer })

unfoldable pub store_fast : String → Addr → Run (Unit {0})
store_fast name value s = store_fast_in name value s.scopes s

-- `back()` of no scopes is undefined.
abbrev assign_in : String → Addr → List Scope → Run (Unit {0})
assign_in name value [] s = undefined
assign_in name value (locals ∷ outer) s =
    ok tt (record s { scopes = assign name value locals ∷ outer })

abbrev release_old : Option Addr → Run (Unit {0})
release_old none = pure tt
release_old (some old) = decref old

abbrev find_in : String → List Scope → Option Addr
find_in name [] = none
find_in name (locals ∷ outer) = find name locals

-- The old value is released before the name is written.
unfoldable pub store_name : String → Addr → Run (Unit {0})
unfolding decref
store_name name value s =
    (release_old (find_in name s.scopes) >> λ t. assign_in name value t.scopes t) s

-- The string of a builtin variable, by name.
abbrev pub Builtins : Type 0
Builtins = String → Option (List ℕ)

abbrev global_value : String → Option Addr → Run Addr
global_value name none =
    throw (Exception.name_error (str_append "name '" (str_append name "' is not defined")))
global_value name (some a) = do add_ref a; pure a

abbrev load_global_in : String → List Scope → Run Addr
load_global_in name [] s = undefined
load_global_in name (locals ∷ outer) s = global_value name (find name locals) s

abbrev builtin_value : Option (List ℕ) → Run Addr → Run Addr
builtin_value none other = other
builtin_value (some text) other = new_obj (Obj.str text)

-- A builtin function comes before a builtin variable, and that before a variable. The reference to
-- a builtin function is not counted.
unfoldable pub load_name : Builtins → String → Run Addr
unfolding add_ref new_obj
load_name vars name s = elim (find name s.builtin_funcs) [
  | some f ↦ ok f s
  | none ↦ builtin_value (vars name) (λ t. load_global_in name t.scopes t) s
]

unfoldable pub load_const_str : List ℕ → Run Addr
unfolding new_obj
load_const_str text = new_obj (Obj.str text)

unfoldable pub load_const_int : ℤ → Run Addr
unfolding new_obj
load_const_int value = new_obj (Obj.int value)

unfoldable pub load_const_float : ℕ → Run Addr
unfolding new_obj
load_const_float value = new_obj (Obj.float value)

unfoldable pub load_const_bool : ℕ → Run Addr
load_const_bool value = pure (if value == 1 then true_addr else false_addr)

unfoldable pub load_const_none : Run Addr
load_const_none = pure none_addr

-- The references of the items pass to the tuple.
unfoldable pub load_const_tuple : List Addr → Run Addr
unfolding new_obj
load_const_tuple items = new_obj (Obj.tuple items)
