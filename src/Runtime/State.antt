-- ===== src/Runtime/State.antt =====
-- pystd/src/runtime_state.hpp and runtime_errors.hpp: the scopes and the Python exceptions, with a
-- monad for the operations of the runtime.
use text.Mathlib.Text.{◌==◌ as str_eq}
use pycompile.Base.{◌+◌, List, [], ◌∷◌, ◌++◌, Option, none, some, String, length, if◌then◌else◌}
use pycompile.Runtime.Heap.{Addr, Obj, Heap, size, Released, done, release, incref}

-- `std::unordered_map<std::string, PyObj*>`
abbrev pub Scope : Type 0
Scope = List (String × Addr)

-- `scopeStack` with its back first, and `builtinFuncs`.
pub record State : Type 0 where
  pub heap : Heap
  pub scopes : List Scope
  pub builtin_funcs : Scope

-- What an operation throws: a Python exception or a `std::runtime_error`.
pub data Exception : Type 0 where
  value_error index_error key_error type_error attribute_error name_error runtime_error :
      String → Exception
  stop_iteration : Exception

-- An operation returns, throws, or is undefined: it uses a freed object, it releases one that is not
-- counted, or it reads beyond a vector.
pub data Outcome (A : Type 0) : Type 0 where
  ok : A → State → Outcome A
  thrown : Exception → State → Outcome A
  undefined : Outcome A

abbrev pub Run : Type 0 → Type 0
Run A = State → Outcome A

abbrev pub and_then : {A B : Type 0} → Outcome A → (A → Run B) → Outcome B
and_then (ok a s) f = f a s
and_then (thrown e s) f = thrown e s
and_then undefined f = undefined

infixl 5 ◌>>=◌ ◌>>◌
abbrev pub ◌>>=◌ : {A B : Type 0} → Run A → (A → Run B) → Run B
◌>>=◌ m f s = and_then (m s) f

abbrev pub ◌>>◌ : {B : Type 0} → Run (Unit {0}) → Run B → Run B
m >> k = m >>= λ _. k

abbrev pub pure : {A : Type 0} → A → Run A
pure a s = ok a s

abbrev pub throw : {A : Type 0} → Exception → Run A
throw e s = thrown e s

-- `locals.find(name)` and `locals[name] = value`
abbrev pub find : String → Scope → Option Addr
find name [] = none
find name ((n, a) ∷ rest) = if str_eq n name then some a else find name rest

abbrev pub assign : String → Addr → Scope → Scope
assign name value [] = (name, value) ∷ []
assign name value ((n, a) ∷ rest) =
    if str_eq n name then (n, value) ∷ rest else (n, a) ∷ assign name value rest

-- `new X(...)`, with one reference.
unfoldable pub new_obj : Obj → Run Addr
new_obj obj s =
    ok (length s.heap) (record s { heap = s.heap ++ (some (record { refs = 1; obj = obj }) ∷ []) })

abbrev pub with_released : Released → Run (Unit {0})
with_released (done h) s = ok tt (record s { heap = h })
with_released _ s = undefined

-- `(void) x->decref()`
unfoldable pub decref : Addr → Run (Unit {0})
unfolding release
decref a s = with_released (release (1 + size s.heap) (a ∷ []) s.heap) s

abbrev pub with_heap : Option Heap → Run (Unit {0})
with_heap none s = undefined
with_heap (some h) s = ok tt (record s { heap = h })

-- `x->incref()`
unfoldable pub add_ref : Addr → Run (Unit {0})
unfolding incref
add_ref a s = with_heap (incref a s.heap) s
