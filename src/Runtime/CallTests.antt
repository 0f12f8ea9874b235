-- ===== src/Runtime/CallTests.antt =====
-- Calls, builtin functions and a range, with a list and a function on the operand stack.
use pycompile.Base.{
  List, String, ℕ, zero, suc, ◌≡◌, refl, true, false, none, some, [], ◌∷◌, ◌++◌, length,
  if◌then◌else◌, arith,
}
use pycompile.Base.Int.{pos, negsuc}
use pycompile.Runtime.Heap.{Addr, Obj, Cell, Heap, children, none_addr}
use pycompile.Runtime.Balance.{IsBalanced}
use pycompile.Runtime.State.{Scope, Exception, thrown, find, and_then, ◌>>◌, State, ok, pure}
use pycompile.Runtime.Variables.{module_state, Returns, IsBalanced-count}
use pycompile.Runtime.Contracts.{IsBalanced-immortal}
use pycompile.Runtime.Operators.{Doubles}
use pycompile.Runtime.Builtins.{
  range_loop, pyir_push_scope, pyir_pop_scope, pyir_builtin_range, rounds, bool_addr, is_truthy,
  pyir_is_truthy, pyir_to_bool, pyir_builtin_len, pyir_builtin_bool, pyir_builtin_is_instance,
}
use pycompile.Runtime.Arguments.{
  Leaves, Raises, pyir_to_bool-IsBalanced, builtins-Leaves, builtins-wrong-Raises,
}
use pycompile.Runtime.Range.{addresses, ints_from, range_loop-Ends}
use pycompile.Runtime.Memory.{load_fast, fast_value}
use pycompile.Runtime.Scopes.{store_locals, pyir_pop_scope-pyir_push_scope}
use pycompile.Runtime.Destroy.{pyir_destroy_module, pyir_destroy_module-IsBalanced}
use pycompile.Runtime.Ranges.{Ranges, pyir_builtin_range-Ranges}
use pycompile.Runtime.Calls.{Functions, Methods, pyir_call}
use pycompile.Runtime.Callees.{Called, pyir_call-Called, pyir_call-Raises}

abbrev zeros : Doubles
zeros = record {
  add = λ a b. 0;
  subtract = λ a b. 0;
  multiply = λ a b. 0;
  divide = λ a b. 0;
  remainder = λ a b. 0;
  power = λ a b. 0;
  floor = λ a. 0;
  negate = λ a. 0;
  of_int = λ i. 0;
  to_int = λ a. none;
  less = λ a b. false;
  less_equal = λ a b. true;
  is_zero = λ a. true;
}

-- An empty list and the function `list`.
abbrev call_heap : Heap
call_heap =
    some (record { refs = 1; obj = Obj.none_obj })
    ∷ some (record { refs = 1; obj = Obj.bool true })
    ∷ some (record { refs = 1; obj = Obj.bool false })
    ∷ some (record { refs = 1; obj = Obj.list [] })
    ∷ some (record { refs = 1; obj = Obj.function "list" })
    ∷ []

abbrev a_list : Cell
a_list = record { refs = 1; obj = Obj.list [] }

abbrev a_function : Cell
a_function = record { refs = 1; obj = Obj.function "list" }

call_heap-IsBalanced : IsBalanced call_heap (3 ∷ 4 ∷ [])
unfolding children
call_heap-IsBalanced zero h = absurd (omega arith)
call_heap-IsBalanced (suc zero) h = absurd (omega arith)
call_heap-IsBalanced (suc (suc zero)) h = absurd (omega arith)
call_heap-IsBalanced (suc (suc (suc zero))) h = (refl, omega arith, omega arith)
call_heap-IsBalanced (suc (suc (suc (suc zero)))) h = (refl, omega arith, omega arith)
call_heap-IsBalanced (suc (suc (suc (suc (suc a))))) h = ground arith

abbrev call_state : State
call_state = module_state call_heap [] []

-- Every function returns None.
abbrev none_functions : Functions
none_functions name args = pure none_addr

abbrev none_methods : Methods
none_methods name self args = pure none_addr

pyir_to_bool-IsBalanced_example :
    Returns
      (λ n t. (n ≡ (if is_truthy zeros (Obj.list []) then 1 else 0)) × IsBalanced t.heap (4 ∷ []))
      (pyir_is_truthy zeros 3 call_state)
    × Returns
        (λ a t. (a ≡ bool_addr (is_truthy zeros (Obj.list []))) × IsBalanced t.heap (a ∷ 4 ∷ []))
        (pyir_to_bool zeros 3 call_state)
pyir_to_bool-IsBalanced_example =
    pyir_to_bool-IsBalanced zeros 3 call_state a_list (4 ∷ []) refl call_heap-IsBalanced

builtins-Leaves_example :
    Leaves (4 ∷ []) (3 ∷ 4 ∷ []) (pyir_builtin_len (3 ∷ []) call_state)
    × Leaves (4 ∷ []) (4 ∷ []) (pyir_builtin_bool zeros (3 ∷ []) call_state)
    × Leaves (4 ∷ []) (4 ∷ []) (pyir_builtin_is_instance (3 ∷ 4 ∷ []) call_state)
builtins-Leaves_example =
    builtins-Leaves zeros 3 4 call_state a_list a_function [] refl refl (omega arith)
      call_heap-IsBalanced

builtins-wrong-Raises_example :
    Raises [] (pyir_builtin_len (3 ∷ 4 ∷ []) call_state)
    × Raises [] (pyir_builtin_bool zeros (3 ∷ 4 ∷ []) call_state)
builtins-wrong-Raises_example =
    builtins-wrong-Raises zeros (3 ∷ 4 ∷ []) [] call_state (λ e. omega (arith, e))
      call_heap-IsBalanced

range_loop-Ends_example :
    range_loop (suc (rounds (negsuc 0) (pos 2))) (negsuc 0) (pos 2) call_state
    ≡ ok
        (addresses (length call_heap) (rounds (negsuc 0) (pos 2)))
        (record call_state { heap = call_heap ++ ints_from (negsuc 0) (rounds (negsuc 0) (pos 2)) })
range_loop-Ends_example = range_loop-Ends (negsuc 0) (pos 2) call_state

pyir_call-Called_example :
    Called [] (3 ∷ 4 ∷ []) (pyir_call none_functions none_methods 4 (3 ∷ []) call_state)
pyir_call-Called_example =
    pyir_call-Called none_functions none_methods "list" 4 (3 ∷ []) [] call_state a_function refl
      refl (IsBalanced-immortal 0 call_state (3 ∷ 4 ∷ []) (omega arith) call_heap-IsBalanced, refl)

-- The list is called, with the function as the argument.
pyir_call-Raises_example : Raises [] (pyir_call none_functions none_methods 3 (4 ∷ []) call_state)
pyir_call-Raises_example =
    pyir_call-Raises none_functions none_methods 3 (4 ∷ []) [] call_state a_list refl refl
      (IsBalanced-count call_heap (3 ∷ 4 ∷ []) (4 ∷ 3 ∷ []) (λ b. omega arith) call_heap-IsBalanced)

-- The ints 1 and 3.
abbrev range_heap : Heap
range_heap =
    some (record { refs = 1; obj = Obj.none_obj })
    ∷ some (record { refs = 1; obj = Obj.bool true })
    ∷ some (record { refs = 1; obj = Obj.bool false })
    ∷ some (record { refs = 1; obj = Obj.int (pos 1) })
    ∷ some (record { refs = 1; obj = Obj.int (pos 3) })
    ∷ []

abbrev int_cell : ℕ → Cell
int_cell n = record { refs = 1; obj = Obj.int (pos n) }

range_heap-IsBalanced : IsBalanced range_heap (3 ∷ 4 ∷ [])
unfolding children
range_heap-IsBalanced zero h = absurd (omega arith)
range_heap-IsBalanced (suc zero) h = absurd (omega arith)
range_heap-IsBalanced (suc (suc zero)) h = absurd (omega arith)
range_heap-IsBalanced (suc (suc (suc zero))) h = (refl, omega arith, omega arith)
range_heap-IsBalanced (suc (suc (suc (suc zero)))) h = (refl, omega arith, omega arith)
range_heap-IsBalanced (suc (suc (suc (suc (suc a))))) h = ground arith

pyir_builtin_range-Ranges_example :
    Ranges
      (some (pos 1, pos 3))
      []
      (pyir_builtin_range (3 ∷ 4 ∷ []) (module_state range_heap [] []))
pyir_builtin_range-Ranges_example =
    pyir_builtin_range-Ranges (3 ∷ 4 ∷ []) [] (int_cell 1 ∷ int_cell 3 ∷ [])
      (module_state range_heap [] []) (refl, (refl, tt)) (omega arith) range_heap-IsBalanced

-- A function that stores the list in `x` and `y`, where the module's `x` is the function.
abbrev x_scope : Scope
x_scope = ("x", 4) ∷ []

abbrev x_state : State
x_state = module_state call_heap x_scope []

abbrev x_stores : List (String × Addr)
x_stores = ("x", 3) ∷ ("y", 3) ∷ []

pyir_pop_scope-pyir_push_scope_example :
    (and_then (pyir_push_scope x_state) (λ _. load_fast "x")
      ≡ fast_value "x" (find "x" x_scope) (record x_state { scopes = x_scope ∷ x_state.scopes }))
    × ((pyir_push_scope >> (store_locals x_stores >> pyir_pop_scope)) x_state ≡ ok tt x_state)
pyir_pop_scope-pyir_push_scope_example =
    pyir_pop_scope-pyir_push_scope x_stores "x" x_scope x_state refl

-- A module whose `x` is the list; the function is a builtin one.
pyir_destroy_module-IsBalanced_example :
    Returns
      (λ _ t. IsBalanced t.heap [])
      (pyir_destroy_module (module_state call_heap (("x", 3) ∷ []) (("list", 4) ∷ [])))
    × (pyir_destroy_module (record {
      heap = call_heap;
      scopes = [] ∷ (("x", 3) ∷ []) ∷ [];
      builtin_funcs = ("list", 4) ∷ [];
    })
        ≡ thrown (Exception.runtime_error "Exiting with dangling scope") (record {
          heap = call_heap;
          scopes = [] ∷ (("x", 3) ∷ []) ∷ [];
          builtin_funcs = ("list", 4) ∷ [];
        }))
pyir_destroy_module-IsBalanced_example =
    pyir_destroy_module-IsBalanced (("x", 3) ∷ []) (("list", 4) ∷ []) [] [] [] call_heap
      call_heap-IsBalanced
