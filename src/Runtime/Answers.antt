-- ===== src/Runtime/Answers.antt =====
-- The values that the operators on numbers of pystd/src/logical_runtime.cpp answer with.
use pycompile.Base.{
  ℕ, ◌≤◌, ◌≡◌, refl, ◌∙◌, Bool, if◌then◌else◌, List, [], ◌∷◌, Option, none, some, String, length,
  arith,
}
use pycompile.Base.Int.{ℤ}
use pycompile.Runtime.Heap.{Addr, Obj, Cell, Heap, cell_at, true_addr, false_addr}
use pycompile.Runtime.Balance.{IsBalanced}
use pycompile.Runtime.Release.{count_self}
use pycompile.Runtime.State.{State, Outcome, ok, thrown, undefined, and_then, pure, decref, new_obj}
use pycompile.Runtime.Sequences.{type_name, obj_at}
use pycompile.Runtime.Operators.{
  Doubles, unsupported_operands, Result, made, made_int, result_or, finish, binary, numeric,
}
use pycompile.Runtime.Variables.{IsBalanced-count}
use pycompile.Runtime.Contracts.{Computes}
use pycompile.Runtime.Creation.{cell_at-middle}
use pycompile.Runtime.Survivors.{Outlives, Outlives-trans, after_decref_kept, survivor}

-- A new int or float, or one of the two bools.
pub data Answer : Type 0 where
  int : ℤ → Answer
  float : ℕ → Answer
  bool : Bool → Answer

-- An object other than the immortal ones stands at the address.
abbrev IsNew : Obj → Addr → Heap → Type 0
IsNew obj a h = (3 ≤ a) × (d : Cell) × (cell_at h a ≡ some d) × (d.obj ≡ obj)

abbrev pub IsAnswer : Option Answer → Addr → Heap → Type 0
IsAnswer none a h = ⊥
IsAnswer (some (Answer.int i)) a h = IsNew (Obj.int i) a h
IsAnswer (some (Answer.float x)) a h = IsNew (Obj.float x) a h
IsAnswer (some (Answer.bool b)) a h = a ≡ (if b then true_addr else false_addr)

-- What is returned, if anything, is the answer.
abbrev pub Answers : Option Answer → Outcome Addr → Type 0
Answers w (ok a s) = IsAnswer w a s.heap
Answers w _ = Unit

abbrev pub Made : Option Answer → Outcome (Option Addr) → Type 0
Made w (ok (some a) s) = IsAnswer w a s.heap
Made w _ = Unit

abbrev pub as_double : Doubles → Obj → ℕ
as_double doubles (Obj.int i) = doubles.of_int i
as_double doubles (Obj.float x) = x
as_double doubles _ = 0

-- The answer to two ints, and to numbers of which one is a float, by their values as doubles.
abbrev pub answer : Doubles → (ℤ → ℤ → Option Answer) → (ℕ → ℕ → Answer) → Obj → Obj → Option Answer
answer doubles f g (Obj.int i) (Obj.int j) = f i j
answer doubles f g l r = some (g (as_double doubles l) (as_double doubles r))

abbrev pub int_answer : Option ℤ → Option Answer
int_answer none = none
int_answer (some i) = some (Answer.int i)

made-IsNew :
    (w : Option Answer) (obj : Obj) (s : State)
    → ((a : Addr) (h : Heap) → IsNew obj a h → IsAnswer w a h)
    → 3 ≤ length s.heap
    → Made w (made obj s)
unfolding new_obj
made-IsNew w obj s f ge =
    f (length s.heap) _ (ge, record { refs = 1; obj = obj }, cell_at-middle s.heap _ [], refl)

pub made_int-Made :
    (o : Option ℤ) (s : State) → 3 ≤ length s.heap → Made (int_answer o) (made_int o s)
made_int-Made none s ge = tt
made_int-Made (some i) s ge = made-IsNew (some (Answer.int i)) (Obj.int i) s (λ a h x. x) ge

pub made_float-Made :
    (x : ℕ) (s : State) → 3 ≤ length s.heap → Made (some (Answer.float x)) (made (Obj.float x) s)
made_float-Made x s ge = made-IsNew (some (Answer.float x)) (Obj.float x) s (λ a h y. y) ge

pub numeric-Made :
    (doubles : Doubles) (ints : ℤ → ℤ → Result) (floats : ℕ → ℕ → Result)
    (f : ℤ → ℤ → Option Answer) (g : ℕ → ℕ → Answer) (l r : Obj) (s : State)
    → ((i j : ℤ) → Made (f i j) (ints i j s))
    → ((x y : ℕ) → Made (some (g x y)) (floats x y s))
    → Made (answer doubles f g l r) (numeric doubles ints floats (pure none) l r s)
numeric-Made doubles ints floats f g (Obj.int i) (Obj.int j) s h k = h i j
numeric-Made doubles ints floats f g (Obj.int i) (Obj.float y) s h k = k _ _
numeric-Made doubles ints floats f g (Obj.float x) (Obj.int j) s h k = k _ _
numeric-Made doubles ints floats f g (Obj.float x) (Obj.float y) s h k = k _ _
numeric-Made doubles ints floats f g l r s h k = tt

IsNew-kept :
    (obj : Obj) (a : Addr) (h h' : Heap) (more : List Addr)
    → Outlives h h'
    → IsBalanced h' (a ∷ more)
    → IsNew obj a h
    → IsNew obj a h'
IsNew-kept obj a h h' more kept bal (ge, c, e, same) =
    let (d, f, still) =
      survivor a h h' (a ∷ more) c ge e kept (omega (arith, count_self a more)) bal in
    (ge, d, f, still ∙ same)

IsAnswer-kept :
    (w : Option Answer) (a : Addr) (h h' : Heap) (more : List Addr)
    → Outlives h h'
    → IsBalanced h' (a ∷ more)
    → IsAnswer w a h
    → IsAnswer w a h'
IsAnswer-kept none a h h' more kept bal x = x
IsAnswer-kept (some (Answer.int i)) a h h' more kept bal x =
    IsNew-kept (Obj.int i) a h h' more kept bal x
IsAnswer-kept (some (Answer.float d)) a h h' more kept bal x =
    IsNew-kept (Obj.float d) a h h' more kept bal x
IsAnswer-kept (some (Answer.bool b)) a h h' more kept bal x = x

finish-Answers :
    (w : Option Answer) (F : Type 0) (takes : Bool) (message : String) (lhs rhs : Addr)
    (more : List Addr) (r : Outcome (Option Addr))
    → Computes F takes (lhs ∷ rhs ∷ more) r
    → Made w r
    → Answers w (and_then r (finish message lhs rhs))
unfolding finish
finish-Answers w F takes message lhs rhs more (ok none s) h x =
    after_decref_kept (Answers w) lhs (rhs ∷ more) s
      (λ t. and_then (decref rhs t) (λ _. result_or message none)) h.1
      λ h' kept bal.
        after_decref_kept (Answers w) rhs more (record s { heap = h' }) (result_or message none) bal
          λ h'' kept' bal'. tt
finish-Answers w F takes message lhs rhs more (ok (some a) s) h x =
    after_decref_kept (Answers w) lhs (rhs ∷ a ∷ more) s
      (λ t. and_then (decref rhs t) (λ _. result_or message (some a)))
      (IsBalanced-count s.heap (a ∷ lhs ∷ rhs ∷ more) (lhs ∷ rhs ∷ a ∷ more) (λ b. omega arith) h.1)
      λ h' kept bal.
        after_decref_kept (Answers w) rhs (a ∷ more) (record s { heap = h' })
          (result_or message (some a)) bal
          λ h'' kept' bal'.
            IsAnswer-kept w a s.heap h'' more (Outlives-trans s.heap h' h'' kept kept') bal' x
finish-Answers w F takes message lhs rhs more (thrown e s) h x = tt
finish-Answers w F takes message lhs rhs more undefined h x = tt

pub binary-Answers :
    (w : Option Answer) (F : Type 0) (takes : Bool) (op : String) (result_for : Obj → Obj → Result)
    (lhs rhs : Addr) (s : State) (c d : Cell) (more : List Addr)
    → cell_at s.heap lhs ≡ some c
    → cell_at s.heap rhs ≡ some d
    → Computes F takes (lhs ∷ rhs ∷ more) (result_for c.obj d.obj s)
    → Made w (result_for c.obj d.obj s)
    → Answers w (binary op result_for lhs rhs s)
unfolding binary obj_at
binary-Answers w F takes op result_for lhs rhs s c d more e f h x =
    rw (e, f)
      (finish-Answers w F takes (unsupported_operands op (type_name c.obj) (type_name d.obj)) lhs
        rhs more (result_for c.obj d.obj s) h x)
