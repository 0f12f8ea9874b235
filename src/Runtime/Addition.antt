-- ===== src/Runtime/Addition.antt =====
-- `+` of pystd/src/logical_runtime.cpp, on numbers, strings and lists: the references.
use mathlib.Core.Path.{subst}
use pycompile.Base.{
  ℕ, suc, ◌+◌, arith, ◌≤◌, ◌≡◌, ◌∙◌, refl, sym, ap, Bool, true, false, List, [], ◌∷◌, ◌++◌, Option,
  some, length, ◌==◌, Bool-cases, ==_iff, inl, inr,
}
use pycompile.Base.Int.{◌+ℤ◌}
use pycompile.Runtime.Heap.{Addr, Obj, Cell, Heap, int32_max, cell_at, children}
use pycompile.Runtime.Balance.{IsBalanced, HasRoom}
use pycompile.Runtime.State.{State, Outcome, ok, thrown, undefined, Run, and_then, pure, new_obj}
use pycompile.Runtime.Sequences.{type_name}
use pycompile.Runtime.Operators.{
  Doubles, unsupported_operands, Result, made, made_int, checked, numeric, list_extend, concat,
  list_concat, pyir_add,
}
use pycompile.Runtime.Variables.{Returns}
use pycompile.Runtime.Creation.{new_obj-IsBalanced, cell_at-append, cell_at-length}
use pycompile.Runtime.Contracts.{Computes, Settles, made-Computes, binary-Settles}
use pycompile.Runtime.Numbers.{numbers, IntFault, numeric-cases, made_int-Computes}
use pycompile.Runtime.Append.{HasRoom-weaken}
use pycompile.Runtime.Concat.{items_of, Extended, list_extend-Extended}

after_Returns :
    {A B : Type 0} (C : Outcome B → Type 0) (P : State → Type 0) (r : Outcome A) (k : A → Run B)
    → Returns (λ _. P) r
    → ((a : A) (t : State) → P t → C (k a t))
    → C (and_then r k)
after_Returns C P (ok a t) k h f = f a t h
after_Returns C P (thrown e t) k h f = absurd h
after_Returns C P undefined k h f = absurd h

-- A live object is not the next new one.
not_new : (a : Addr) (h : Heap) (c : Cell) → cell_at h a ≡ some c → (a == length h) ≡ false
not_new a h c e = elim (Bool-cases (a == length h)) [
  | inr ne ↦ ne
  | inl same ↦
      (let gone = cell_at-length h in
        let eq = (==_iff a (length h)).0 same in absurd (cc (e, gone, eq)))
]

-- Two lists added to an empty one.
extend_twice :
    (F : Type 0) (n : ℕ) (self lhs rhs : Addr) (xs ys roots : List Addr) (u : State) (b c d : Cell)
    → 3 ≤ self
    → (lhs == self) ≡ false
    → (rhs == self) ≡ false
    → cell_at u.heap self ≡ some b
    → b.obj ≡ Obj.list []
    → cell_at u.heap lhs ≡ some c
    → c.obj ≡ Obj.list xs
    → cell_at u.heap rhs ≡ some d
    → d.obj ≡ Obj.list ys
    → HasRoom (length xs + (length ys + n)) u.heap
    → IsBalanced u.heap (self ∷ roots)
    → Computes F true roots (
        and_then
          (list_extend self (lhs ∷ []) u)
          (λ _ t. and_then (list_extend self (rhs ∷ []) t) (λ _. pure (some self))))
extend_twice F n self lhs rhs xs ys roots u b c d ge ne ne' e is_empty f is_xs g is_ys room bal =
    after_Returns (Computes F true roots) (Extended (length ys + n) self xs (self ∷ roots) u.heap)
      (list_extend self (lhs ∷ []) u)
      (λ _ t. and_then (list_extend self (rhs ∷ []) t) (λ _. pure (some self)))
      (list_extend-Extended (length ys + n) self lhs [] xs (self ∷ roots) u b c ge ne e is_empty f
        (ap items_of is_xs) room bal)
      λ a t ((b', e', is_list), kept, bal', left).
        let (d', g', same) = kept rhs d ne' g in
        after_Returns (Computes F true roots) (Extended n self (xs ++ ys) (self ∷ roots) t.heap)
          (list_extend self (rhs ∷ []) t) (λ _. pure (some self))
          (list_extend-Extended n self rhs xs ys (self ∷ roots) t b' d' ge ne' e' is_list g'
            (ap items_of (same ∙ is_ys)) left bal')
          λ a' t' done. (refl, done.2)

HasRoom-append :
    (n : ℕ) (h : Heap) (c : Cell)
    → c.refs + n ≤ int32_max
    → HasRoom n h
    → HasRoom n (h ++ (some c ∷ []))
HasRoom-append n h c fits room b = elim (Bool-cases (b == length h)) [
  | inl e ↦ rw (cell_at-append b h (some c), e) fits
  | inr e ↦ rw (cell_at-append b h (some c), e) (room b)
]

pub still_there :
    (a : Addr) (h : Heap) (c : Cell) (o : Option Cell)
    → cell_at h a ≡ some c
    → cell_at (h ++ (o ∷ [])) a ≡ some c
still_there a h c o e = rw (cell_at-append a h o, not_new a h c e) e

list_concat-Computes :
    (F : Type 0) (lhs rhs : Addr) (xs ys : List Addr) (s : State) (c d : Cell) (roots : List Addr)
    → cell_at s.heap lhs ≡ some c
    → c.obj ≡ Obj.list xs
    → cell_at s.heap rhs ≡ some d
    → d.obj ≡ Obj.list ys
    → 3 ≤ length s.heap
    → HasRoom (suc (length xs + length ys)) s.heap
    → IsBalanced s.heap roots
    → Computes F true roots (list_concat lhs rhs s)
unfolding new_obj children
list_concat-Computes F lhs rhs xs ys s c d roots e is_list f is_list' ge room bal =
    extend_twice F 0 (length s.heap) lhs rhs xs ys roots
      (record s { heap = s.heap ++ (some new ∷ []) }) new c d ge (not_new lhs s.heap c e)
      (not_new rhs s.heap d f)
      (rw
        (
          cell_at-append (length s.heap) s.heap (some new),
          (==_iff (length s.heap) (length s.heap)).1 refl,
        )
        refl)
      refl (still_there lhs s.heap c (some new) e) is_list (still_there rhs s.heap d (some new) f)
      is_list' fresh (new_obj-IsBalanced (Obj.list []) s roots ge bal).1
  where
    new : Cell
    new = record { refs = 1; obj = Obj.list [] }

    fresh : HasRoom (length xs + (length ys + 0)) (s.heap ++ (some new ∷ []))
    fresh =
        HasRoom-append (length xs + (length ys + 0)) s.heap new
          (let fits = rw e at (room lhs) in omega arith)
          (HasRoom-weaken _ (suc (length xs + length ys)) s.heap (omega arith) room)

-- The operands that `+` takes.
abbrev pub addable : Obj → Obj → Bool
addable (Obj.str t) (Obj.str u) = true
addable (Obj.list xs) (Obj.list ys) = true
addable (Obj.tuple xs) (Obj.tuple ys) = true
addable l r = numbers l r

-- What the counts are to grow by: the elements of two lists, and one for their sum.
abbrev pub shared_by : Obj → Obj → ℕ
shared_by (Obj.list xs) (Obj.list ys) = suc (length xs + length ys)
shared_by l r = 0

-- Tuples, of which `+` does not count the elements.
abbrev pub NotTuples : Obj → Obj → Type 0
NotTuples (Obj.tuple xs) (Obj.tuple ys) = ⊥
NotTuples l r = Unit

numbers-addable : (l r : Obj) → numbers l r ≡ true → addable l r ≡ true
numbers-addable (Obj.str t) (Obj.str u) e = refl
numbers-addable (Obj.list xs) (Obj.list ys) e = refl
numbers-addable (Obj.tuple xs) (Obj.tuple ys) e = refl
numbers-addable l r e = e

module _ (lhs rhs : Addr) (s : State) (c d : Cell) (roots : List Addr)
    (live : cell_at s.heap lhs ≡ some c) (live' : cell_at s.heap rhs ≡ some d)
    (ge : 3 ≤ length s.heap) (room : HasRoom (shared_by c.obj d.obj) s.heap)
    (bal : IsBalanced s.heap roots) where
  concat-Computes :
      (l r : Obj)
      → c.obj ≡ l
      → d.obj ≡ r
      → NotTuples l r
      → numbers l r ≡ false
      → Computes (IntFault (λ i j. checked (i +ℤ j)) l r) (addable l r) roots (concat lhs rhs l r s)
  unfolding children
  concat-Computes (Obj.str t) (Obj.str u) e f plain other =
      made-Computes ⊥ true roots s (Obj.str (t ++ u)) refl refl ge bal
  concat-Computes (Obj.list xs) (Obj.list ys) e f plain other =
      list_concat-Computes ⊥ lhs rhs xs ys s c d roots live e live' f ge
        (subst (λ l. HasRoom (shared_by l (Obj.list ys)) s.heap) e
          (subst (λ r. HasRoom (shared_by c.obj r) s.heap) f room))
        bal
  concat-Computes (Obj.tuple xs) (Obj.tuple ys) e f plain other = absurd plain
  concat-Computes l r e f plain other = (other, bal)

  abbrev AddComputes : Obj → Obj → Result → Type 0
  AddComputes x y k =
      c.obj ≡ x
      → d.obj ≡ y
      → NotTuples x y
      → Computes (IntFault (λ i j. checked (i +ℤ j)) x y) (addable x y) roots (k s)

  add-Computes :
      (doubles : Doubles)
      → AddComputes c.obj d.obj (
          numeric doubles
            (λ i j. made_int (checked (i +ℤ j)))
            (λ x y. made (Obj.float (doubles.add x y)))
            (concat lhs rhs c.obj d.obj)
            c.obj
            d.obj)
  unfolding children
  add-Computes doubles =
      numeric-cases AddComputes doubles (λ i j. made_int (checked (i +ℤ j)))
        (λ x y. made (Obj.float (doubles.add x y))) (concat lhs rhs c.obj d.obj) c.obj d.obj
        (λ i j _ _ _.
          made_int-Computes (λ i j. checked (i +ℤ j)) i j (checked (i +ℤ j)) roots s refl ge bal)
        (λ x y a b fine _ _ _.
          made-Computes (IntFault (λ i j. checked (i +ℤ j)) x y) (addable x y) roots s
            (Obj.float (doubles.add a b)) (numbers-addable x y fine) refl ge bal)
        (λ x y other e f plain.
          subst
            (λ l.
              Computes (IntFault (λ i j. checked (i +ℤ j)) x y) (addable x y) roots
                (concat lhs rhs l d.obj s))
            (sym e)
            (subst
              (λ r.
                Computes (IntFault (λ i j. checked (i +ℤ j)) x y) (addable x y) roots
                  (concat lhs rhs x r s))
              (sym f) (concat-Computes x y e f plain other)))

-- `+` of two live operands that are not both tuples, when the counts are exact and can grow by the
-- elements of two lists and one, and the caller holds a reference to each operand: both references
-- are given up; numbers, strings and lists have a result with one counted reference, others raise a TypeError with both types; it is undefined only for
-- two ints of which the sum does not fit. The counts are exact, also of the elements that a new list
-- shares with its operands.
pub pyir_add-IsBalanced :
    (doubles : Doubles) (s : State) (lhs rhs : Addr) (c d : Cell) (more : List Addr)
    → cell_at s.heap lhs ≡ some c
    → cell_at s.heap rhs ≡ some d
    → NotTuples c.obj d.obj
    → 3 ≤ length s.heap
    → HasRoom (shared_by c.obj d.obj) s.heap
    → IsBalanced s.heap (lhs ∷ rhs ∷ more)
    → Settles
        (IntFault (λ i j. checked (i +ℤ j)) c.obj d.obj)
        (addable c.obj d.obj)
        (unsupported_operands "+" (type_name c.obj) (type_name d.obj))
        more
        (pyir_add doubles lhs rhs s)
unfolding pyir_add
pyir_add-IsBalanced doubles s lhs rhs c d more live live' plain ge room bal =
    binary-Settles (IntFault (λ i j. checked (i +ℤ j)) c.obj d.obj) (addable c.obj d.obj) "+"
      (λ l r.
        numeric doubles (λ i j. made_int (checked (i +ℤ j)))
          (λ x y. made (Obj.float (doubles.add x y))) (concat lhs rhs l r) l r)
      lhs rhs s c d more live live'
      (add-Computes lhs rhs s c d (lhs ∷ rhs ∷ more) live live' ge room bal doubles refl refl plain)
