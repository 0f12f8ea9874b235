-- ===== src/Runtime/Creation.antt =====
-- Objects that are made: the reference that the caller gets, and those that pass to the object.
use mathlib.Core.Path.{subst}
use pycompile.Base.{
  zero, suc, ◌+◌, ◌≤◌, ◌≡◌, refl, List, [], ◌∷◌, ◌++◌, Option, none, some, length, ◌==◌,
  if◌then◌else◌, arith, Bool-cases, ==_iff, inl, inr,
}
use pycompile.Runtime.Heap.{Addr, Obj, Cell, Heap, cell_at, children, kids_of}
use pycompile.Runtime.Balance.{count, heap_count, IsExact, IsBalanced, count-append}
use pycompile.Runtime.Release.{exact_none, count_self}
use pycompile.Runtime.State.{State, new_obj}
use pycompile.Runtime.Memory.{load_const_tuple}
use pycompile.Runtime.Sequences.{build_list}
use pycompile.Runtime.Variables.{Returns}

pub cell_at-middle :
    (h : Heap) (o : Option Cell) (rest : Heap) → cell_at (h ++ (o ∷ rest)) (length h) ≡ o
cell_at-middle [] o rest = refl
cell_at-middle (c ∷ h) o rest = cell_at-middle h o rest

pub cell_at-append :
    (b : Addr) (h : Heap) (o : Option Cell)
    → cell_at (h ++ (o ∷ [])) b ≡ (if b == length h then o else cell_at h b)
cell_at-append zero [] o = ground arith
cell_at-append (suc b) [] o = ground arith
cell_at-append zero (d ∷ h) o = ground arith
cell_at-append (suc b) (d ∷ h) o = ground (arith, cell_at-append b h o)

pub cell_at-length : (h : Heap) → cell_at h (length h) ≡ none
cell_at-length [] = refl
cell_at-length (d ∷ h) = cell_at-length h

heap_count-append :
    (b : Addr) (h : Heap) (o : Option Cell)
    → heap_count b (h ++ (o ∷ [])) ≡ heap_count b h + count b (kids_of o)
heap_count-append b [] o = omega arith
heap_count-append b (d ∷ h) o = omega (arith, heap_count-append b h o)

new_count :
    (b : Addr) (kids roots : List Addr) (h : Heap) (o : Option Cell)
    → kids_of o ≡ kids
    → count b (kids ++ roots) + heap_count b h ≡ count b roots + heap_count b (h ++ (o ∷ []))
new_count b kids roots h o e =
    let more = rw e at (heap_count-append b h o) in omega (arith, count-append b kids roots)

-- A new object takes over the references to its parts, and the caller has the only one to it.
pub new_obj-IsBalanced :
    (obj : Obj) (s : State) (roots : List Addr)
    → 3 ≤ length s.heap
    → IsBalanced s.heap (children obj ++ roots)
    → Returns (λ a t. (a ≡ length s.heap) × IsBalanced t.heap (a ∷ roots)) (new_obj obj s)
unfolding new_obj
new_obj-IsBalanced obj s roots ge bal = (refl, fresh)
  where
    fresh :
        IsBalanced (s.heap ++ (some (record { refs = 1; obj = obj }) ∷ [])) (length s.heap ∷ roots)
    fresh b b_ge =
        let c : Option Cell = some (record { refs = 1; obj = obj }) in
        let counts = new_count b (children obj) roots s.heap c refl in
        elim (Bool-cases (b == length s.heap)) [
          | inl e ↦
              (let same = (==_iff b (length s.heap)).0 e in
                let gone =
                  exact_none _ (cell_at s.heap b) (rw same (cell_at-length s.heap)) (bal b b_ge) in
                rw (cell_at-append b s.heap c, e)
                  (omega (arith, count_self b roots), omega arith, omega arith))
          | inr e ↦
              rw (cell_at-append b s.heap c, e)
                (subst (IsExact (cell_at s.heap b)) (omega (arith, counts)) (bal b b_ge))
        ]

-- A list display, and a constant tuple, when the counts are exact and the immortal objects exist:
-- the references to the items pass to the new object, to which the caller has the only reference.
pub build_list-IsBalanced :
    (items : List Addr) (s : State) (roots : List Addr)
    → 3 ≤ length s.heap
    → IsBalanced s.heap (items ++ roots)
    → Returns (λ a t. (a ≡ length s.heap) × IsBalanced t.heap (a ∷ roots)) (build_list items s)
      × Returns
          (λ a t. (a ≡ length s.heap) × IsBalanced t.heap (a ∷ roots))
          (load_const_tuple items s)
unfolding build_list load_const_tuple children
build_list-IsBalanced items s roots ge bal = (
  new_obj-IsBalanced (Obj.list items) s roots ge bal,
  new_obj-IsBalanced (Obj.tuple items) s roots ge bal,
)
