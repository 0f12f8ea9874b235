-- ===== src/Runtime/Concat.antt =====
-- `+` of pystd/src/logical_runtime.cpp and `PyList::extend` of
-- pystd/src/pytypes/iterables/py_list.cpp: the elements and the reference counts.
use mathlib.Core.Path.{subst}
use mathlib.Core.List.{append-nil, append_assoc}
use pycompile.Base.{
  ℕ, suc, ◌+◌, length, ◌≤◌, ◌≡◌, ◌∙◌, refl, sym, ap, false, List, [], ◌∷◌, ◌++◌, Option, none, some,
  All, ◌==◌, arith, ==_iff,
}
use pycompile.Runtime.Heap.{Addr, Obj, Cell, Heap, cell_at, put, children, incref}
use pycompile.Runtime.Balance.{count, IsBalanced, HasRoom, cell_at-put, count-append}
use pycompile.Runtime.Release.{count_self}
use pycompile.Runtime.State.{State, Outcome, ok, thrown, undefined}
use pycompile.Runtime.Sequences.{obj_at}
use pycompile.Runtime.Operators.{extend_with, list_extend, extend_from}
use pycompile.Runtime.Variables.{Returns}
use pycompile.Runtime.Subscripts.{heap_count-children}
use pycompile.Runtime.Append.{
  HasItems, HasRoom-weaken, HasRoom-put, incref-HasRoom, incref-some, incref-Keeps,
  grown-IsBalanced,
}

-- Every object but one is still there.
abbrev pub Unchanged : Addr → Heap → Heap → Type 0
Unchanged self h h' =
    (b : Addr) (c : Cell)
    → (b == self) ≡ false
    → cell_at h b ≡ some c
    → (d : Cell) × (cell_at h' b ≡ some d) × (d.obj ≡ c.obj)

-- A list with the elements, every other object as it was, and counts that can grow by `n` more.
abbrev pub Extended : ℕ → Addr → List Addr → List Addr → Heap → State → Type 0
Extended n self items roots h t =
    HasItems self items t × Unchanged self h t.heap × IsBalanced t.heap roots × HasRoom n t.heap

Returns-weaken :
    {A : Type 0} (P Q : State → Type 0) (r : Outcome A)
    → ((t : State) → P t → Q t)
    → Returns (λ _. P) r
    → Returns (λ _. Q) r
Returns-weaken P Q (ok a t) f h = f t h
Returns-weaken P Q (thrown e t) f h = absurd h
Returns-weaken P Q undefined f h = absurd h

Unchanged-trans :
    (self : Addr) (h h' h'' : Heap)
    → Unchanged self h h'
    → Unchanged self h' h''
    → Unchanged self h h''
Unchanged-trans self h h' h'' first second b c ne e =
    let (d, f, same) = first b c ne e in
    let (d', f', same') = second b d ne f in (d', f', same' ∙ same)

step-Unchanged :
    (self x : Addr) (h h' : Heap) (c : Cell) (o : Option Cell)
    → incref x h ≡ some h'
    → cell_at h' self ≡ some c
    → Unchanged self h (put h' self o)
step-Unchanged self x h h' c o made e b d ne f =
    let (d', f', same) = rw made at (incref-Keeps x b h d f) in
    (d', rw (cell_at-put b self h' o e, ne) f', same)

-- The list after one element more.
abbrev grown : Cell → List Addr → Addr → Option Cell
grown c ys x = some (record c { obj = Obj.list (ys ++ (x ∷ [])) })

extend_step :
    (n : ℕ) (self x : Addr) (xs ys roots : List Addr) (s : State) (h : Heap) (c : Cell)
    → incref x s.heap ≡ some h
    → cell_at h self ≡ some c
    → c.obj ≡ Obj.list ys
    → Returns
        (λ _. Extended n self ((ys ++ (x ∷ [])) ++ xs) roots (put h self (grown c ys x)))
        (extend_with self xs (record s { heap = put h self (grown c ys x) }))
    → Returns (λ _. Extended n self (ys ++ (x ∷ xs)) roots s.heap) (extend_with self (x ∷ xs) s)
unfolding extend_with
extend_step n self x xs ys roots s h c made e is_list rest =
    rw (made, e, is_list)
      (Returns-weaken (Extended n self ((ys ++ (x ∷ [])) ++ xs) roots (put h self (grown c ys x)))
        (Extended n self (ys ++ (x ∷ xs)) roots s.heap)
        (extend_with self xs (record s { heap = put h self (grown c ys x) }))
        (λ t y. (
          subst (λ items. HasItems self items t) (append_assoc ys (x ∷ []) xs) y.0,
          Unchanged-trans self s.heap (put h self (grown c ys x)) t.heap
              (step-Unchanged self x s.heap h c (grown c ys x) made e) y.1,
          y.2,
          y.3,
        ))
        rest)

-- The elements that are still to be added are those of another object.
module _ (n : ℕ) (self source : Addr) (zs roots : List Addr) (ge : 3 ≤ self)
    (ne : (source == self) ≡ false) where
  extend_with-Extended :
      (xs ys : List Addr) (s : State) (c d : Cell)
      → cell_at s.heap self ≡ some c
      → c.obj ≡ Obj.list ys
      → cell_at s.heap source ≡ some d
      → children d.obj ≡ zs
      → All (λ x. 1 ≤ count x zs) xs
      → HasRoom (length xs + n) s.heap
      → IsBalanced s.heap roots
      → Returns (λ _. Extended n self (ys ++ xs) roots s.heap) (extend_with self xs s)
  unfolding extend_with
  extend_with-Extended [] ys s c d e is_list f kids within room bal = (
    (c, e, is_list ∙ ap Obj.list (sym (append-nil ys))),
    (λ b c' _ e'. (c', e', refl)),
    bal,
    HasRoom-weaken n (0 + n) s.heap (omega arith) room,
  )
  extend_with-Extended (x ∷ xs) ys s c d e is_list f kids within room bal =
      let holds = rw kids at (heap_count-children x source s.heap d f) in
      let (h, made, counted) =
        incref-some x s roots (let one = within.0 in omega arith)
          (HasRoom-weaken 1 (suc (length xs) + n) s.heap (omega arith) room) bal in
      let left =
        incref-HasRoom (length xs + n) x s.heap h made
          (HasRoom-weaken (suc (length xs + n)) (suc (length xs) + n) s.heap (omega arith) room) in
      let (c1, e1, same) = rw made at (incref-Keeps x self s.heap c e) in
      let (d', f', same') =
        step-Unchanged self x s.heap h c1 (grown c1 ys x) made e1 source d ne f in
      extend_step n self x xs ys roots s h c1 made e1 (same ∙ is_list) (
        extend_with-Extended xs (ys ++ (x ∷ [])) (record s { heap = put h self (grown c1 ys x) })
          (record c1 { obj = Obj.list (ys ++ (x ∷ [])) }) d'
          (rw (cell_at-put self self h (grown c1 ys x) e1, (==_iff self self).1 refl) refl) refl f'
          (ap children same' ∙ kids) within.1
          (HasRoom-put (length xs + n) self h (grown c1 ys x) c1 e1 (rw e1 at (left self)) left)
          (grown-IsBalanced self x ys roots h c1 e1 (same ∙ is_list) ge counted))

-- What `extend` takes its elements from.
abbrev pub items_of : Obj → Option (List Addr)
items_of (Obj.list xs) = some xs
items_of (Obj.set xs) = some xs
items_of (Obj.tuple xs) = some xs
items_of _ = none

-- Every element is among them.
pub All-self : (xs : List Addr) → All (λ x. 1 ≤ count x xs) xs
All-self xs = go [] xs
  where
    go : (ps rest : List Addr) → All (λ x. 1 ≤ count x (ps ++ rest)) rest
    go ps [] = tt
    go ps (x ∷ rest) = (
      omega (arith, count-append x ps (x ∷ rest), count_self x rest),
      subst (λ l. All (λ y. 1 ≤ count y l) rest) (append_assoc ps (x ∷ []) rest)
          (go (ps ++ (x ∷ [])) rest),
    )

-- `extend` of a live list by another live list, set or tuple, when the counts are exact and each can
-- grow by the number of the elements and `n`: it returns, the list has the elements added at its end,
-- in their order, with a reference of its own to each, no other object changes but for its count,
-- the counts are exact, and each can still grow by `n`.
pub list_extend-Extended :
    (n : ℕ) (self source : Addr) (ys xs roots : List Addr) (s : State) (c d : Cell)
    → 3 ≤ self
    → (source == self) ≡ false
    → cell_at s.heap self ≡ some c
    → c.obj ≡ Obj.list ys
    → cell_at s.heap source ≡ some d
    → items_of d.obj ≡ some xs
    → HasRoom (length xs + n) s.heap
    → IsBalanced s.heap roots
    → Returns (λ _. Extended n self (ys ++ xs) roots s.heap) (list_extend self (source ∷ []) s)
unfolding list_extend obj_at children
list_extend-Extended n self source ys xs roots s c d ge ne e is_list f items room bal =
    rw (e, is_list, f) (go d.obj refl items)
  where
    from_items :
        (zs : List Addr)
        → children d.obj ≡ zs
        → some zs ≡ some xs
        → Returns (λ _. Extended n self (ys ++ xs) roots s.heap) (extend_with self zs s)
    from_items zs kids same =
        let eq : zs ≡ xs = cc in
        subst (λ l. Returns (λ _. Extended n self (ys ++ l) roots s.heap) (extend_with self zs s))
          eq
          (extend_with-Extended n self source zs roots ge ne zs ys s c d e is_list f kids
            (All-self zs) (subst (λ l. HasRoom (length l + n) s.heap) (sym eq) room) bal)

    go :
        (o : Obj)
        → d.obj ≡ o
        → items_of o ≡ some xs
        → Returns (λ _. Extended n self (ys ++ xs) roots s.heap) (extend_from self source o s)
    go (Obj.list zs) same its = rw ne (from_items zs (ap children same) its)
    go (Obj.set zs) same its = from_items zs (ap children same) its
    go (Obj.tuple zs) same its = from_items zs (ap children same) its
    go _ same its = absurd (cc its)
