-- ===== src/Runtime/Append.antt =====
-- Appending to a list, and the reference counts.
use mathlib.Core.Path.{subst}
use pycompile.Base.{
  ℕ, suc, ◌+◌, ◌≤◌, ◌≡◌, refl, sym, ap, ◌∙◌, List, [], ◌∷◌, ◌++◌, Option, none, some, ◌==◌, arith,
  Bool-cases, Option-cases, ==_iff, inl, inr,
}
use pycompile.Runtime.Heap.{
  Addr, Obj, Cell, Heap, cell_at, put, is_immortal, next_count, children, incref,
}
use pycompile.Runtime.Balance.{
  count, heap_count, IsBalanced, Fits, HasRoom, next_count_lem, count-append, heap_count-put,
  cell_at-put,
}
use pycompile.Runtime.Release.{exact_at, count_self, put-IsExact, IsBalanced-split}
use pycompile.Runtime.State.{State, Outcome, ok, thrown, undefined, and_then, pure, decref, add_ref}
use pycompile.Runtime.Sequences.{obj_at, append_to, list_append, pyir_list_append}
use pycompile.Runtime.Variables.{incref-IsBalanced, Returns}
use pycompile.Runtime.Survivors.{after_decref_kept, survivor}

-- A counted reference more succeeds.
abbrev Recounted : List Addr → Outcome Addr → Type 0
Recounted roots (ok a s) = IsBalanced s.heap roots
Recounted roots _ = ⊥

pub incref-some :
    (a : Addr) (s : State) (roots : List Addr)
    → 1 ≤ count a roots + heap_count a s.heap
    → HasRoom 1 s.heap
    → IsBalanced s.heap roots
    → (h : Heap) × (incref a s.heap ≡ some h) × IsBalanced h (a ∷ roots)
incref-some a s roots held room bal =
    let x =
      incref-IsBalanced a s.heap roots s (Recounted (a ∷ roots)) (omega arith) room bal
        (λ h b. b) in
    elim (Option-cases (incref a s.heap)) [
      | inl e ↦ absurd (rw e at x)
      | inr (h, e) ↦ (h, e, rw e at x)
    ]

-- It changes no object.
abbrev pub Keeps : Addr → Cell → Option Heap → Type 0
Keeps b c none = Unit
Keeps b c (some h) = (d : Cell) × (cell_at h b ≡ some d) × (d.obj ≡ c.obj)

abbrev obj_of : Option Cell → Obj
obj_of none = Obj.none_obj
obj_of (some c) = c.obj

pub incref-Keeps :
    (a b : Addr) (h : Heap) (c : Cell) → cell_at h b ≡ some c → Keeps b c (incref a h)
unfolding incref
incref-Keeps a b h c f = elim (Bool-cases (is_immortal a)) [
  | inl low ↦ rw low (c, f, refl)
  | inr high ↦ elim (Option-cases (cell_at h a)) [
    | inl e ↦ rw (high, e) tt
    | inr (d, e) ↦
        rw (high, e)
          (elim (Bool-cases (b == a)) [
            | inl same ↦ (
              record d { refs = next_count d.refs },
              rw (cell_at-put b a h (some (record d { refs = next_count d.refs })) e, same) refl,
              ap obj_of (sym e ∙ (ap (cell_at h) (sym ((==_iff b a).0 same)) ∙ f)),
            )
            | inr other ↦ (
              c,
              rw (cell_at-put b a h (some (record d { refs = next_count d.refs })) e, other) f,
              refl,
            )
          ])
  ]
]

-- A reference more uses up room for one.
Fits-less : (n : ℕ) (o : Option Cell) → Fits (suc n) o → Fits n o
Fits-less n none x = tt
Fits-less n (some c) x = omega arith

pub HasRoom-less : (n : ℕ) (h : Heap) → HasRoom (suc n) h → HasRoom n h
HasRoom-less n h room a = Fits-less n (cell_at h a) (room a)

Fits-weaken : (m n : ℕ) (o : Option Cell) → m ≤ n → Fits n o → Fits m o
Fits-weaken m n none le x = tt
Fits-weaken m n (some c) le x = omega arith

pub HasRoom-weaken : (m n : ℕ) (h : Heap) → m ≤ n → HasRoom n h → HasRoom m h
HasRoom-weaken m n h le room a = Fits-weaken m n (cell_at h a) le (room a)

-- Replacing a cell by one whose count leaves as much room.
pub HasRoom-put :
    (n : ℕ) (a : Addr) (h : Heap) (o : Option Cell) (c : Cell)
    → cell_at h a ≡ some c
    → Fits n o
    → HasRoom n h
    → HasRoom n (put h a o)
HasRoom-put n a h o c e fits room b = elim (Bool-cases (b == a)) [
  | inl same ↦ rw (cell_at-put b a h o e, same) fits
  | inr other ↦ rw (cell_at-put b a h o e, other) (room b)
]

-- The room that is left.
abbrev LeavesRoom : ℕ → Option Heap → Type 0
LeavesRoom n none = Unit
LeavesRoom n (some h) = HasRoom n h

incref-LeavesRoom : (n : ℕ) (a : Addr) (h : Heap) → HasRoom (suc n) h → LeavesRoom n (incref a h)
unfolding incref
incref-LeavesRoom n a h room = elim (Bool-cases (is_immortal a)) [
  | inl low ↦ rw low (HasRoom-less n h room)
  | inr high ↦ elim (Option-cases (cell_at h a)) [
    | inl e ↦ rw (high, e) tt
    | inr (c, e) ↦
        (let fits = rw e at (room a) in
          let counted = next_count_lem c.refs (omega arith) in
          rw (high, e, counted)
            (HasRoom-put n a h (some (record c { refs = c.refs + 1 })) c e (omega arith)
              (HasRoom-less n h room)))
  ]
]

pub incref-HasRoom :
    (n : ℕ) (a : Addr) (h h' : Heap) → incref a h ≡ some h' → HasRoom (suc n) h → HasRoom n h'
incref-HasRoom n a h h' e room = rw e at (incref-LeavesRoom n a h room)

-- A list that holds one more reference, which was a root.
pub grown-IsBalanced :
    (a x : Addr) (xs roots : List Addr) (h : Heap) (c : Cell)
    → cell_at h a ≡ some c
    → c.obj ≡ Obj.list xs
    → 3 ≤ a
    → IsBalanced h (x ∷ roots)
    → IsBalanced (put h a (some (record c { obj = Obj.list (xs ++ (x ∷ [])) }))) roots
unfolding children
grown-IsBalanced a x xs roots h c e is_list ge bal =
    let d : Cell = record c { obj = Obj.list (xs ++ (x ∷ [])) } in
    IsBalanced-split a (put h a (some d)) roots
      (rw (cell_at-put a a h (some d) e, (==_iff a a).1 refl)
        (let live = exact_at a _ h c e (bal a ge) in
          let total = moved a in (omega arith, omega arith, omega arith)))
      λ b ne b_ge.
        put-IsExact a b h (some d) c (count b (x ∷ roots) + heap_count b h) _ e ne (moved b)
          (bal b b_ge)
  where
    moved :
        (b : Addr)
        → count b (x ∷ roots) + heap_count b h
          ≡ count b roots
            + heap_count b (put h a (some (record c { obj = Obj.list (xs ++ (x ∷ [])) })))
    moved b =
        let changed =
          rw is_list at
            (heap_count-put b a h (some (record c { obj = Obj.list (xs ++ (x ∷ [])) })) e) in
        omega (arith, count-append b xs (x ∷ []))

-- A live list with these elements.
abbrev pub HasItems : Addr → List Addr → State → Type 0
HasItems self items t = (c : Cell) × (cell_at t.heap self ≡ some c) × (c.obj ≡ Obj.list items)

abbrev Appended : Addr → List Addr → Addr → List Addr → State → Type 0
Appended list xs item more t = HasItems list (xs ++ (item ∷ [])) t × IsBalanced t.heap more

-- The list's cell after the reference was made, and the rest of the operation.
append-Returns :
    (list item : Addr) (xs more : List Addr) (s : State) (o : Option Cell) (d : Cell)
    → o ≡ some d
    → cell_at s.heap list ≡ some d
    → d.obj ≡ Obj.list xs
    → 3 ≤ list
    → 1 ≤ count list more
    → IsBalanced s.heap (item ∷ item ∷ more)
    → Returns
        (λ _. Appended list xs item more)
        (and_then (append_to o list item s) (λ _. decref item))
append-Returns list item xs more s o d e f is_list ge held bal =
    rw (e, is_list)
      (subst (Returns (λ _. Appended list xs item more)) (sym (plain (decref item _))) (
        after_decref_kept (Returns (λ _. Appended list xs item more)) item more
          (record s { heap = put s.heap list (some grown) }) (pure tt)
          (grown-IsBalanced list item xs (item ∷ more) s.heap d f is_list ge bal)
          λ h kept b. (
            survivor list (put s.heap list (some grown)) h more grown ge
                (rw (cell_at-put list list s.heap (some grown) f, (==_iff list list).1 refl) refl)
                kept held b,
            b,
          )))
  where
    grown : Cell
    grown = record d { obj = Obj.list (xs ++ (item ∷ [])) }

    plain : (r : Outcome (Unit {0})) → r ≡ and_then r (λ _. pure tt)
    plain (ok tt t) = refl
    plain (thrown e t) = refl
    plain undefined = refl

-- Appending to a live list, when the counts are exact and each can grow by one, and the caller has
-- a reference to the list and one to the item: it returns, the list has the item at its end, the
-- caller's reference to the item is given up, and the counts are exact with the list's own reference
-- to the item; the item may be the list itself.
pub pyir_list_append-IsBalanced :
    (list item : Addr) (xs more : List Addr) (s : State) (c : Cell)
    → cell_at s.heap list ≡ some c
    → c.obj ≡ Obj.list xs
    → 3 ≤ list
    → 1 ≤ count list more
    → HasRoom 1 s.heap
    → IsBalanced s.heap (item ∷ more)
    → Returns
        (λ _ t. HasItems list (xs ++ (item ∷ [])) t × IsBalanced t.heap more)
        (pyir_list_append list item s)
unfolding pyir_list_append list_append obj_at add_ref
pyir_list_append-IsBalanced list item xs more s c e is_list ge held room bal =
    let (h, made, counted) =
      incref-some item s (item ∷ more) (omega (arith, count_self item more)) room bal in
    let (d, f, same) = rw made at (incref-Keeps item list s.heap c e) in
    rw (e, is_list, made)
      (append-Returns list item xs more (record s { heap = h }) (cell_at h list) d f f
        (same ∙ is_list) ge held counted)
