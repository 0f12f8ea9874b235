-- ===== src/Runtime/Builtins.antt =====
-- pystd/src/builtin_runtime.cpp: the builtin functions on lengths, truth, types and ranges, with
-- `decrefArgs` of runtime_util.cpp; `isTruthy` of the object classes and `pyir_isTruthy` and
-- `pyir_toBool` of logical_runtime.cpp; the scopes of function_runtime.cpp.
use text.Mathlib.Text.{◌==◌ as str_eq}
use Prim.Native.String.{◌++◌ as str_append}
use pycompile.Base.{
  ℕ, zero, suc, ◌+◌, ◌-◌, Bool, true, false, not, List, [], ◌∷◌, Option, none, some, String, length,
  if◌then◌else◌,
}
use pycompile.Base.Int.{ℤ, pos, pos_part, neg_part, ltb_ℤ, ◌+ℤ◌, is_zero_ℤ}
use pycompile.Runtime.Heap.{Addr, Obj, true_addr, false_addr}
use pycompile.Runtime.State.{
  Scope, Exception, ok, undefined, Run, ◌>>=◌, ◌>>◌, pure, throw, decref, new_obj,
}
use pycompile.Runtime.Sequences.{type_name, obj_at}
use pycompile.Runtime.Operators.{Doubles}

abbrev is_empty : {A : Type 0} → List A → Bool
is_empty [] = true
is_empty (x ∷ xs) = false

-- `isTruthy()`
unfoldable pub is_truthy : Doubles → Obj → Bool
is_truthy doubles Obj.none_obj = false
is_truthy doubles (Obj.bool b) = b
is_truthy doubles (Obj.int i) = not (is_zero_ℤ i)
is_truthy doubles (Obj.float d) = not (doubles.is_zero d)
is_truthy doubles (Obj.str text) = not (is_empty text)
is_truthy doubles (Obj.list xs) = not (is_empty xs)
is_truthy doubles (Obj.tuple xs) = not (is_empty xs)
is_truthy doubles (Obj.set xs) = not (is_empty xs)
is_truthy doubles (Obj.dict kvs) = not (is_empty kvs)
is_truthy doubles _ = true

-- An `int8_t`.
unfoldable pub pyir_is_truthy : Doubles → Addr → Run ℕ
unfolding obj_at is_truthy decref
pyir_is_truthy doubles val = do
  v ← obj_at val
  decref val
  pure (if is_truthy doubles v then 1 else 0)

abbrev pub bool_addr : Bool → Addr
bool_addr b = if b then true_addr else false_addr

unfoldable pub pyir_to_bool : Doubles → Addr → Run Addr
unfolding obj_at is_truthy decref
pyir_to_bool doubles val = do v ← obj_at val; decref val; pure (bool_addr (is_truthy doubles v))

unfoldable pub decref_args : List Addr → Run (Unit {0})
unfolding decref
decref_args [] = pure tt
decref_args (a ∷ args) = do decref a; decref_args args

abbrev pub wrong_arguments : {A : Type 0} → String → List Addr → Run A
wrong_arguments message args = do decref_args args; throw (Exception.type_error message)

-- `len()`
abbrev pub new_int : ℤ → Run Addr
new_int i = new_obj (Obj.int i)

unfoldable pub len : Obj → Run Addr
unfolding new_obj type_name
len (Obj.str text) = new_int (pos (length text))
len (Obj.list xs) = new_int (pos (length xs))
len (Obj.tuple xs) = new_int (pos (length xs))
len (Obj.set xs) = new_int (pos (length xs))
len (Obj.dict kvs) = new_int (pos (length kvs))
len obj = throw (
    Exception.type_error
      (str_append "object of type '" (str_append (type_name obj) "' has no len()")))

-- An argument that has no length keeps the caller's reference.
unfoldable pub pyir_builtin_len : List Addr → Run Addr
unfolding obj_at len decref_args
pyir_builtin_len (x ∷ []) = do obj ← obj_at x; n ← len obj; decref_args (x ∷ []); pure n
pyir_builtin_len args = wrong_arguments "len() takes exactly one argument" args

unfoldable pub pyir_builtin_bool : Doubles → List Addr → Run Addr
unfolding obj_at is_truthy decref_args
pyir_builtin_bool doubles (x ∷ []) = do
  obj ← obj_at x
  decref_args (x ∷ [])
  pure (bool_addr (is_truthy doubles obj))
pyir_builtin_bool doubles args = wrong_arguments "bool() takes exactly one argument" args

abbrev pub instance_of : String → Obj → Option Addr
instance_of type (Obj.function name) = some (bool_addr (str_eq type name))
instance_of type _ = none

abbrev pub instance_result : Option Addr → Run Addr
instance_result none =
    throw (Exception.type_error "isinstance() takes a type as the second argument")
instance_result (some a) = pure a

-- The second argument keeps the caller's reference.
unfoldable pub pyir_builtin_is_instance : List Addr → Run Addr
unfolding obj_at type_name decref decref_args
pyir_builtin_is_instance (x ∷ type ∷ []) = do
  obj ← obj_at x
  fn ← obj_at type
  decref x
  instance_result (instance_of (type_name obj) fn)
pyir_builtin_is_instance args = wrong_arguments "isinstance() takes exactly two arguments" args

-- `for (int64_t i = start; i < end; i++)`. The fuel is one more than the rounds.
abbrev pub rounds : ℤ → ℤ → ℕ
rounds start end = (pos_part end + neg_part start) - (pos_part start + neg_part end)

unfoldable pub range_loop : ℕ → ℤ → ℤ → Run (List Addr)
unfolding new_obj ◌+ℤ◌
range_loop zero i end = λ s. undefined
range_loop (suc f) i end =
    let rest = range_loop f (i +ℤ pos 1) end in
    if ltb_ℤ i end then (do a ← new_int i; more ← rest; pure (a ∷ more)) else pure []

abbrev pub range_between : List Addr → ℤ → ℤ → Run Addr
range_between args start end = do
  items ← range_loop (suc (rounds start end)) start end
  decref_args args
  new_obj (Obj.tuple items)

abbrev pub range_from : List Addr → ℤ → Obj → Run Addr
range_from args end (Obj.int start) = range_between args start end
range_from args end _ = wrong_arguments "range() expects integer arguments" args

abbrev pub range_to : List Addr → Obj → (ℤ → Run Addr) → Run Addr
range_to args (Obj.int end) k = k end
range_to args _ k = wrong_arguments "range() expects integer arguments" args

unfoldable pub pyir_builtin_range : List Addr → Run Addr
unfolding obj_at range_loop decref_args new_obj
pyir_builtin_range (x ∷ []) = do
  obj ← obj_at x
  range_to (x ∷ []) obj (λ end. range_between (x ∷ []) (pos 0) end)
pyir_builtin_range (x ∷ y ∷ []) = do
  obj ← obj_at y
  range_to (x ∷ y ∷ []) obj (λ end. do first ← obj_at x; range_from (x ∷ y ∷ []) end first)
pyir_builtin_range args = wrong_arguments "range() takes one or two arguments" args

-- A new scope starts as a copy of the module's, which is the last; `scopeStack[0]` of no scopes is
-- undefined.
abbrev pub bottom : List Scope → Option Scope
bottom [] = none
bottom (s ∷ []) = some s
bottom (s ∷ rest) = bottom rest

abbrev push : Option Scope → Run (Unit {0})
push none s = undefined
push (some globals) s = ok tt (record s { scopes = globals ∷ s.scopes })

unfoldable pub pyir_push_scope : Run (Unit {0})
pyir_push_scope s = push (bottom s.scopes) s

abbrev pop : List Scope → Run (Unit {0})
pop [] = throw (Exception.runtime_error "Attempting to pop from empty scope stack")
pop (locals ∷ outer) = λ s. ok tt (record s { scopes = outer })

unfoldable pub pyir_pop_scope : Run (Unit {0})
pyir_pop_scope s = pop s.scopes s
