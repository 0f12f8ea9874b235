-- ===== src/Runtime/Calls.antt =====
-- pystd/src/function_runtime.cpp: calls. What a function pointer does is a parameter, by the name
-- of the function.
use Prim.Native.String.{◌++◌ as str_append}
use pycompile.Base.{List, Option, none, some, String}
use pycompile.Runtime.Heap.{Addr, Obj}
use pycompile.Runtime.State.{Exception, Run, ◌>>=◌, ◌>>◌, pure, throw, find, decref, new_obj}
use pycompile.Runtime.Sequences.{type_name, obj_at}
use pycompile.Runtime.Builtins.{decref_args}

-- `PyFunctionData` and `PyMethodData`
abbrev pub Functions : Type 0
Functions = String → List Addr → Run Addr

abbrev pub Methods : Type 0
Methods = String → Addr → List Addr → Run Addr

unfoldable pub pyir_make_function : String → Run Addr
unfolding new_obj
pyir_make_function name = new_obj (Obj.function name)

-- The arguments and the callee go out of scope.
abbrev pub give_up : {A : Type 0} → List Addr → Addr → Run A → Run A
give_up args callee k = do decref_args args; decref callee; k

-- A function with the name of a builtin one has released its arguments itself.
abbrev pub after_call : Option Addr → List Addr → Addr → Addr → Run Addr
after_call (some builtin) args callee result = pure result
after_call none args callee result = give_up args callee (pure result)

abbrev pub not_callable : Obj → String
not_callable obj = str_append "'" (str_append (type_name obj) "' object is not callable")

abbrev pub call_obj : Functions → Methods → List Addr → Addr → Obj → Run Addr
call_obj functions methods args callee (Obj.function name) = do
  result ← functions name args
  (λ s. after_call (find name s.builtin_funcs) args callee result s)
call_obj functions methods args callee (Obj.method name self) = do
  result ← methods name self args
  give_up args callee (pure result)
call_obj functions methods args callee obj =
    give_up args callee (throw (Exception.type_error (not_callable obj)))

unfoldable pub pyir_call : Functions → Methods → Addr → List Addr → Run Addr
unfolding obj_at decref_args decref type_name
pyir_call functions methods callee args = do
  obj ← obj_at callee
  call_obj functions methods args callee obj
