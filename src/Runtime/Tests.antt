-- ===== src/Runtime/Tests.antt =====
-- The runtime on a list that holds a string twice.
use mathlib.Core.Path.{subst}
use pycompile.Base.{zero, suc, ◌+◌, ◌≤◌, ◌≡◌, ◌↔◌, refl, true, false, [], ◌∷◌, ◌++◌, some, arith}
use pycompile.Base.Int.{pos, negsuc}
use pycompile.Runtime.Heap.{Obj, Heap, cell_at, size, children, release}
use pycompile.Runtime.Balance.{IsBalanced, IsExact, HasRoom}
use pycompile.Runtime.Release.{IsReleased, release-IsBalanced}
use pycompile.Runtime.State.{Scope, find, assign}
use pycompile.Runtime.Memory.{load_fast, store_name, load_const_tuple}
use pycompile.Runtime.Sequences.{pyir_list_append, index_in, list_idx, pyir_idx, build_list}
use pycompile.Runtime.Variables.{
  values, module_state, Returns, Loads, load_fast-IsBalanced, store_name-IsBalanced,
}
use pycompile.Runtime.Subscripts.{Denotes, IsShared, index_in_iff, idx_of, pyir_idx-IsElement}
use pycompile.Runtime.Creation.{build_list-IsBalanced}
use pycompile.Runtime.Append.{HasItems, pyir_list_append-IsBalanced}

abbrev two_references : Heap
two_references =
    some (record { refs = 1; obj = Obj.none_obj })
    ∷ some (record { refs = 1; obj = Obj.bool true })
    ∷ some (record { refs = 1; obj = Obj.bool false })
    ∷ some (record { refs = 1; obj = Obj.list (4 ∷ 0 ∷ 4 ∷ []) })
    ∷ some (record { refs = 3; obj = Obj.str [] })
    ∷ []

two_references-IsBalanced : IsBalanced two_references (3 ∷ 4 ∷ [])
unfolding children
two_references-IsBalanced zero h = absurd (omega arith)
two_references-IsBalanced (suc zero) h = absurd (omega arith)
two_references-IsBalanced (suc (suc zero)) h = absurd (omega arith)
two_references-IsBalanced (suc (suc (suc zero))) h = (refl, omega arith, omega arith)
two_references-IsBalanced (suc (suc (suc (suc zero)))) h = (refl, omega arith, omega arith)
two_references-IsBalanced (suc (suc (suc (suc (suc a))))) h = ground arith

size_le : 1 + size two_references ≤ 9
unfolding children
size_le = omega arith

release-IsBalanced_example : IsReleased (release 9 (3 ∷ []) two_references) (4 ∷ [])
release-IsBalanced_example =
    release-IsBalanced 9 (3 ∷ []) (4 ∷ []) two_references size_le two_references-IsBalanced

-- A module with `xs = ["", None, ""]`, and the string and a 1 on the operand stack.
abbrev xs_heap : Heap
xs_heap = two_references ++ (some (record { refs = 1; obj = Obj.int (pos 1) }) ∷ [])

abbrev xs_scope : Scope
xs_scope = ("xs", 3) ∷ []

xs_heap-HasRoom : HasRoom 1 xs_heap
xs_heap-HasRoom zero = omega arith
xs_heap-HasRoom (suc zero) = omega arith
xs_heap-HasRoom (suc (suc zero)) = omega arith
xs_heap-HasRoom (suc (suc (suc zero))) = omega arith
xs_heap-HasRoom (suc (suc (suc (suc zero)))) = omega arith
xs_heap-HasRoom (suc (suc (suc (suc (suc zero))))) = omega arith
xs_heap-HasRoom (suc (suc (suc (suc (suc (suc a)))))) = tt

xs_heap-IsBalanced : IsBalanced xs_heap (3 ∷ 4 ∷ 5 ∷ [])
unfolding children
xs_heap-IsBalanced zero h = absurd (omega arith)
xs_heap-IsBalanced (suc zero) h = absurd (omega arith)
xs_heap-IsBalanced (suc (suc zero)) h = absurd (omega arith)
xs_heap-IsBalanced (suc (suc (suc zero))) h = (refl, omega arith, omega arith)
xs_heap-IsBalanced (suc (suc (suc (suc zero)))) h = (refl, omega arith, omega arith)
xs_heap-IsBalanced (suc (suc (suc (suc (suc zero))))) h = (refl, omega arith, omega arith)
xs_heap-IsBalanced (suc (suc (suc (suc (suc (suc a)))))) h = ground arith

load_fast-IsBalanced_example :
    Loads xs_heap xs_scope []
      (4 ∷ 5 ∷ [])
      (find "xs" xs_scope)
      (load_fast "xs" (module_state xs_heap xs_scope []))
load_fast-IsBalanced_example =
    load_fast-IsBalanced "xs" xs_heap xs_scope [] (4 ∷ 5 ∷ []) xs_heap-HasRoom xs_heap-IsBalanced

-- The same heap with the 1 in front of the references.
one_first-IsBalanced : IsBalanced xs_heap (5 ∷ 3 ∷ 4 ∷ [])
one_first-IsBalanced b h =
    subst (IsExact (cell_at xs_heap b)) (omega arith) (xs_heap-IsBalanced b h)

store_name-IsBalanced_example :
    Returns
      (λ _ s.
        (s.scopes ≡ assign "xs" 5 xs_scope ∷ [])
        × IsBalanced s.heap (values (assign "xs" 5 xs_scope) ++ (4 ∷ [])))
      (store_name "xs" 5 (module_state xs_heap xs_scope []))
store_name-IsBalanced_example =
    store_name-IsBalanced "xs" 5 xs_heap xs_scope [] (4 ∷ []) one_first-IsBalanced

pyir_idx-IsElement_example :
    IsShared
      (4 ∷ 0 ∷ 4 ∷ [])
      (Obj.int (pos 1))
      (4 ∷ [])
      (pyir_idx (idx_of false (4 ∷ 0 ∷ 4 ∷ [])) 3 5 (module_state xs_heap [] []))
pyir_idx-IsElement_example =
    pyir_idx-IsElement false (4 ∷ 0 ∷ 4 ∷ []) 3 5 (module_state xs_heap [] [])
      (record { refs = 1; obj = Obj.list (4 ∷ 0 ∷ 4 ∷ []) })
      (record { refs = 1; obj = Obj.int (pos 1) }) (4 ∷ []) refl refl refl xs_heap-HasRoom
      one_first-IsBalanced

-- The element is None.
second_is_none :
    Returns (λ x s. x ≡ 0) (pyir_idx (list_idx (4 ∷ 0 ∷ 4 ∷ [])) 3 5 (module_state xs_heap [] []))
unfolding pyir_idx list_idx children
second_is_none = refl

index_in_iff_example : (index_in (negsuc 0) 3 ≡ some 2) ↔ Denotes (negsuc 0) 3 2
index_in_iff_example = index_in_iff (negsuc 0) 3 2

build_list-IsBalanced_example :
    Returns
      (λ a t. (a ≡ 6) × IsBalanced t.heap (a ∷ 5 ∷ []))
      (build_list (3 ∷ 4 ∷ []) (module_state xs_heap [] []))
    × Returns
        (λ a t. (a ≡ 6) × IsBalanced t.heap (a ∷ 5 ∷ []))
        (load_const_tuple (3 ∷ 4 ∷ []) (module_state xs_heap [] []))
build_list-IsBalanced_example =
    build_list-IsBalanced (3 ∷ 4 ∷ []) (module_state xs_heap [] []) (5 ∷ []) (omega arith)
      xs_heap-IsBalanced

pyir_list_append-IsBalanced_example :
    Returns
      (λ _ t. HasItems 3 (4 ∷ 0 ∷ 4 ∷ 5 ∷ []) t × IsBalanced t.heap (3 ∷ 4 ∷ []))
      (pyir_list_append 3 5 (module_state xs_heap [] []))
pyir_list_append-IsBalanced_example =
    pyir_list_append-IsBalanced 3 5 (4 ∷ 0 ∷ 4 ∷ []) (3 ∷ 4 ∷ []) (module_state xs_heap [] [])
      (record { refs = 1; obj = Obj.list (4 ∷ 0 ∷ 4 ∷ []) }) refl refl (omega arith) (omega arith)
      xs_heap-HasRoom one_first-IsBalanced
