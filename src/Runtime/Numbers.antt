-- ===== src/Runtime/Numbers.antt =====
-- The branches on numbers that most operators of pystd/src/logical_runtime.cpp start with, with the
-- counts after each.
use pycompile.Base.{ℕ, ◌≤◌, ◌≡◌, Bool, true, false, ◌&&◌, List, Option, none, some, length, refl}
use pycompile.Base.Int.{ℤ}
use pycompile.Runtime.Heap.{Addr, Obj, children}
use pycompile.Runtime.Balance.{IsBalanced}
use pycompile.Runtime.State.{State, pure}
use pycompile.Runtime.Operators.{Doubles, Result, made, made_int, made_bool, numeric}
use pycompile.Runtime.Contracts.{Computes, made-Computes, made_bool-Computes}

abbrev pub is_number : Obj → Bool
is_number (Obj.int i) = true
is_number (Obj.float d) = true
is_number _ = false

abbrev pub numbers : Obj → Obj → Bool
numbers l r = is_number l && is_number r

-- The operands are ints for which an int operation has no result.
abbrev pub IntFault : (ℤ → ℤ → Option ℤ) → Obj → Obj → Type 0
IntFault f (Obj.int i) (Obj.int j) = f i j ≡ none
IntFault f _ _ = ⊥

pub numeric-cases :
    (C : Obj → Obj → Result → Type 0) (doubles : Doubles) (ints : ℤ → ℤ → Result)
    (floats : ℕ → ℕ → Result) (other : Result) (l r : Obj)
    → ((i j : ℤ) → C (Obj.int i) (Obj.int j) (ints i j))
    → ((x y : Obj) (d e : ℕ) → numbers x y ≡ true → C x y (floats d e))
    → ((x y : Obj) → numbers x y ≡ false → C x y other)
    → C l r (numeric doubles ints floats other l r)
numeric-cases C doubles ints floats other (Obj.int i) (Obj.int j) f g h = f i j
numeric-cases C doubles ints floats other (Obj.int i) (Obj.float e) f g h = g _ _ _ _ refl
numeric-cases C doubles ints floats other (Obj.float d) (Obj.int j) f g h = g _ _ _ _ refl
numeric-cases C doubles ints floats other (Obj.float d) (Obj.float e) f g h = g _ _ _ _ refl
numeric-cases C doubles ints floats other l r f g h = h l r refl

pub made_int-Computes :
    (f : ℤ → ℤ → Option ℤ) (i j : ℤ) (o : Option ℤ) (roots : List Addr) (s : State)
    → f i j ≡ o
    → 3 ≤ length s.heap
    → IsBalanced s.heap roots
    → Computes (IntFault f (Obj.int i) (Obj.int j)) true roots (made_int o s)
unfolding children
made_int-Computes f i j none roots s e ge bal = e
made_int-Computes f i j (some k) roots s e ge bal =
    made-Computes (IntFault f (Obj.int i) (Obj.int j)) true roots s (Obj.int k) refl refl ge bal

-- Operators that make an int by `f` or a float by `g`.
pub numeric-Computes :
    (doubles : Doubles) (f : ℤ → ℤ → Option ℤ) (g : ℕ → ℕ → ℕ) (l r : Obj) (roots : List Addr)
    (s : State)
    → 3 ≤ length s.heap
    → IsBalanced s.heap roots
    → Computes (IntFault f l r) (numbers l r) roots (
        numeric doubles
          (λ i j. made_int (f i j))
          (λ x y. made (Obj.float (g x y)))
          (pure none)
          l
          r
          s)
unfolding children
numeric-Computes doubles f g l r roots s ge bal =
    numeric-cases (λ x y k. Computes (IntFault f x y) (numbers x y) roots (k s)) doubles
      (λ i j. made_int (f i j)) (λ x y. made (Obj.float (g x y))) (pure none) l r
      (λ i j. made_int-Computes f i j (f i j) roots s refl ge bal)
      (λ x y a b fine.
        made-Computes (IntFault f x y) (numbers x y) roots s (Obj.float (g a b)) fine refl ge bal)
      (λ x y refused. (refused, bal))

-- Operators that make a float, of ints too.
pub float-Computes :
    (doubles : Doubles) (f : ℤ → ℤ → ℕ) (g : ℕ → ℕ → ℕ) (l r : Obj) (roots : List Addr) (s : State)
    → 3 ≤ length s.heap
    → IsBalanced s.heap roots
    → Computes ⊥ (numbers l r) roots (
        numeric doubles
          (λ i j. made (Obj.float (f i j)))
          (λ x y. made (Obj.float (g x y)))
          (pure none)
          l
          r
          s)
unfolding children
float-Computes doubles f g l r roots s ge bal =
    numeric-cases (λ x y k. Computes ⊥ (numbers x y) roots (k s)) doubles
      (λ i j. made (Obj.float (f i j))) (λ x y. made (Obj.float (g x y))) (pure none) l r
      (λ i j. made-Computes ⊥ true roots s (Obj.float (f i j)) refl refl ge bal)
      (λ x y a b fine. made-Computes ⊥ (numbers x y) roots s (Obj.float (g a b)) fine refl ge bal)
      (λ x y refused. (refused, bal))

pub compare-Computes :
    (doubles : Doubles) (f : ℤ → ℤ → Bool) (g : ℕ → ℕ → Bool) (l r : Obj) (roots : List Addr)
    (s : State)
    → IsBalanced s.heap roots
    → Computes ⊥
        (numbers l r)
        roots
        (numeric doubles (λ i j. made_bool (f i j)) (λ x y. made_bool (g x y)) (pure none) l r s)
compare-Computes doubles f g l r roots s bal =
    numeric-cases (λ x y k. Computes ⊥ (numbers x y) roots (k s)) doubles (λ i j. made_bool (f i j))
      (λ x y. made_bool (g x y)) (pure none) l r
      (λ i j. made_bool-Computes ⊥ true roots s (f i j) refl bal)
      (λ x y a b fine. made_bool-Computes ⊥ (numbers x y) roots s (g a b) fine bal)
      (λ x y refused. (refused, bal))
