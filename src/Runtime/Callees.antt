-- ===== src/Runtime/Callees.antt =====
-- Calls of pystd/src/function_runtime.cpp: the references to the callee and to the arguments.
use pycompile.Base.{◌≡◌, Bool, true, false, List, ◌∷◌, ◌++◌, none, some, String, arith}
use pycompile.Runtime.Heap.{Addr, Obj, Cell, Heap, cell_at}
use pycompile.Runtime.Balance.{IsBalanced, count-append}
use pycompile.Runtime.State.{
  State, Exception, Outcome, ok, thrown, undefined, Run, and_then, pure, throw, find, decref,
}
use pycompile.Runtime.Sequences.{obj_at}
use pycompile.Runtime.Variables.{IsBalanced-count}
use pycompile.Runtime.Subscripts.{after_decref}
use pycompile.Runtime.Arguments.{after_args, Raises}
use pycompile.Runtime.Calls.{
  Functions, Methods, give_up, after_call, not_callable, call_obj, pyir_call,
}

-- A function that is called with counted arguments, and leaves them to its caller: a counted result,
-- or an exception; its name is not that of a builtin function afterwards.
abbrev pub Borrows : String → List Addr → Outcome Addr → Type 0
Borrows name roots (ok x s) = IsBalanced s.heap (x ∷ roots) × (find name s.builtin_funcs ≡ none)
Borrows name roots (thrown e s) = IsBalanced s.heap roots
Borrows name roots undefined = ⊥

-- The result of a call, and the references that are kept after an exception.
abbrev pub Called : List Addr → List Addr → Outcome Addr → Type 0
Called more kept (ok x s) = IsBalanced s.heap (x ∷ more)
Called more kept (thrown e s) = IsBalanced s.heap kept
Called more kept undefined = ⊥

give_up-balanced :
    (C : Outcome Addr → Type 0) (args : List Addr) (callee : Addr) (more : List Addr) (s : State)
    (k : Run Addr)
    → IsBalanced s.heap (args ++ (callee ∷ more))
    → ((h : Heap) → IsBalanced h more → C (k (record s { heap = h })))
    → C (give_up args callee k s)
give_up-balanced C args callee more s k bal f =
    after_args C args (callee ∷ more) s (λ t. and_then (decref callee t) (λ _. k)) bal
      λ h bal'. after_decref C callee more (record s { heap = h }) k bal' f

moved :
    (x callee : Addr) (args more : List Addr) (s : State)
    → IsBalanced s.heap (x ∷ (args ++ (callee ∷ more)))
    → IsBalanced s.heap (args ++ (callee ∷ x ∷ more))
moved x callee args more s bal =
    IsBalanced-count s.heap (x ∷ (args ++ (callee ∷ more))) (args ++ (callee ∷ x ∷ more))
      (λ b.
        omega (arith, count-append b args (callee ∷ more), count-append b args (callee ∷ x ∷ more)))
      bal

user-Called :
    (functions : Functions) (methods : Methods) (name : String) (callee : Addr)
    (args more : List Addr) (s : State)
    → Borrows name (args ++ (callee ∷ more)) (functions name args s)
    → Called more
        (args ++ (callee ∷ more))
        (call_obj functions methods args callee (Obj.function name) s)
user-Called functions methods name callee args more s h = go (functions name args s) h
  where
    go :
        (r : Outcome Addr)
        → Borrows name (args ++ (callee ∷ more)) r
        → Called more
            (args ++ (callee ∷ more))
            (and_then r (λ x t. after_call (find name t.builtin_funcs) args callee x t))
    go (ok x t) h = rw h.1 (
        give_up-balanced (Called more (args ++ (callee ∷ more))) args callee (x ∷ more) t (pure x)
          (moved x callee args more t h.0) λ h' bal. bal)
    go (thrown e t) h = h
    go undefined h = absurd h

pub pyir_call-Called :
    (functions : Functions) (methods : Methods) (name : String) (callee : Addr)
    (args more : List Addr) (s : State) (c : Cell)
    → cell_at s.heap callee ≡ some c
    → c.obj ≡ Obj.function name
    → Borrows name (args ++ (callee ∷ more)) (functions name args s)
    → Called more (args ++ (callee ∷ more)) (pyir_call functions methods callee args s)
unfolding pyir_call obj_at
pyir_call-Called functions methods name callee args more s c live is_function h =
    rw (live, is_function) (user-Called functions methods name callee args more s h)

-- The classes of objects that can be called.
abbrev pub callable : Obj → Bool
callable (Obj.function name) = true
callable (Obj.method name self) = true
callable _ = false

-- A call of a live object that is no function or method, when the counts are exact and the caller
-- holds references to it and to the arguments: a TypeError is raised, all these references are given
-- up, and the counts are exact.
pub pyir_call-Raises :
    (functions : Functions) (methods : Methods) (callee : Addr) (args more : List Addr) (s : State)
    (c : Cell)
    → cell_at s.heap callee ≡ some c
    → callable c.obj ≡ false
    → IsBalanced s.heap (args ++ (callee ∷ more))
    → Raises more (pyir_call functions methods callee args s)
unfolding pyir_call obj_at
pyir_call-Raises functions methods callee args more s c live refused bal =
    rw live (go c.obj refused)
  where
    go : (o : Obj) → callable o ≡ false → Raises more (call_obj functions methods args callee o s)
    go (Obj.function name) e = absurd (cc e)
    go (Obj.method name self) e = absurd (cc e)
    go o e =
        give_up-balanced (Raises more) args callee more s
          (throw (Exception.type_error (not_callable o))) bal λ h bal'. bal'
