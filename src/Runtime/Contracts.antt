-- ===== src/Runtime/Contracts.antt =====
-- What the operators of pystd/src/logical_runtime.cpp have in common: the references that they give
-- up, and their exceptions.
use pycompile.Base.{
  ◌≤◌, ◌≡◌, Bool, true, false, List, [], ◌∷◌, Option, none, some, String, length, refl, arith,
}
use mathlib.Core.Path.{subst}
use pycompile.Runtime.Heap.{Addr, Obj, Cell, Heap, cell_at, children}
use pycompile.Runtime.Balance.{IsExact, IsBalanced}
use pycompile.Runtime.Release.{count_other}
use pycompile.Runtime.State.{
  State, Exception, Outcome, ok, thrown, undefined, and_then, decref, new_obj,
}
use pycompile.Runtime.Sequences.{type_name, obj_at}
use pycompile.Runtime.Operators.{
  unsupported_operands, bad_operand, Result, made, made_bool, result_or, finish, binary, unary,
}
use pycompile.Runtime.Variables.{IsBalanced-count}
use pycompile.Runtime.Subscripts.{after_decref}
use pycompile.Runtime.Creation.{new_obj-IsBalanced}

-- A result for operands that the operator takes, a null pointer for others, with exact counts; `F`
-- says when the operation may be undefined.
abbrev pub Computes : Type 0 → Bool → List Addr → Outcome (Option Addr) → Type 0
Computes F takes roots (ok none s) = (takes ≡ false) × IsBalanced s.heap roots
Computes F takes roots (ok (some a) s) = (takes ≡ true) × IsBalanced s.heap (a ∷ roots)
Computes F takes roots (thrown e s) = ⊥
Computes F takes roots undefined = F

-- A counted reference for operands that the operator takes, and for others a TypeError with the
-- message; the counts are exact either way.
abbrev pub Settles : Type 0 → Bool → String → List Addr → Outcome Addr → Type 0
Settles F takes message roots (ok a s) = (takes ≡ true) × IsBalanced s.heap (a ∷ roots)
Settles F takes message roots (thrown (Exception.type_error text) s) =
    (takes ≡ false) × (text ≡ message) × IsBalanced s.heap roots
Settles F takes message roots (thrown e s) = ⊥
Settles F takes message roots undefined = F

abbrev held : Option Addr → List Addr → List Addr
held none more = more
held (some a) more = a ∷ more

pub IsBalanced-immortal :
    (a : Addr) (s : State) (roots : List Addr)
    → a ≤ 2
    → IsBalanced s.heap roots
    → IsBalanced s.heap (a ∷ roots)
IsBalanced-immortal a s roots low bal b ge =
    subst (λ n. IsExact (cell_at s.heap b) n) (omega (arith, count_other b a roots (ground arith)))
      (bal b ge)

module _ (F : Type 0) (takes : Bool) (roots : List Addr) (s : State) where
  pub made-Computes :
      (obj : Obj)
      → takes ≡ true
      → children obj ≡ []
      → 3 ≤ length s.heap
      → IsBalanced s.heap roots
      → Computes F takes roots (made obj s)
  unfolding new_obj
  made-Computes obj fine leaf ge bal = (fine, (new_obj-IsBalanced obj s roots ge (rw leaf bal)).1)

  pub made_bool-Computes :
      (b : Bool) → takes ≡ true → IsBalanced s.heap roots → Computes F takes roots (made_bool b s)
  made_bool-Computes true fine bal = (fine, IsBalanced-immortal 1 s roots (omega arith) bal)
  made_bool-Computes false fine bal = (fine, IsBalanced-immortal 2 s roots (omega arith) bal)

module _ (F : Type 0) (takes : Bool) (message : String) where
  result_or-Settles :
      (result : Option Addr) (roots : List Addr) (s : State)
      → Computes F takes roots (ok result s)
      → Settles F takes message roots (result_or message result s)
  result_or-Settles none roots s (refused, bal) = (refused, refl, bal)
  result_or-Settles (some a) roots s h = h

  after-result :
      (lhs rhs : Addr) (more : List Addr) (s : State) (result : Option Addr)
      → IsBalanced s.heap (lhs ∷ rhs ∷ held result more)
      → ((h : Heap)
          → IsBalanced h (held result more)
          → Settles F takes message more (result_or message result (record s { heap = h })))
      → Settles F takes message more (finish message lhs rhs result s)
  unfolding finish
  after-result lhs rhs more s result bal f =
      after_decref (Settles F takes message more) lhs (rhs ∷ held result more) s
        (λ t. and_then (decref rhs t) (λ _. result_or message result)) bal
        λ h bal'.
          after_decref (Settles F takes message more) rhs (held result more) (record s { heap = h })
            (result_or message result) bal' f

  pub finish-Settles :
      (lhs rhs : Addr) (more : List Addr) (r : Outcome (Option Addr))
      → Computes F takes (lhs ∷ rhs ∷ more) r
      → Settles F takes message more (and_then r (finish message lhs rhs))
  finish-Settles lhs rhs more (ok none s) h =
      after-result lhs rhs more s none h.1 λ h' bal. (h.0, refl, bal)
  finish-Settles lhs rhs more (ok (some a) s) h =
      after-result lhs rhs more s (some a)
        (IsBalanced-count s.heap (a ∷ lhs ∷ rhs ∷ more) (lhs ∷ rhs ∷ a ∷ more) (λ b. omega arith)
          h.1)
        λ h' bal. (h.0, bal)
  finish-Settles lhs rhs more (thrown e s) h = absurd h
  finish-Settles lhs rhs more undefined h = h

  pub after-unary :
      (val : Addr) (more : List Addr) (r : Outcome (Option Addr))
      → Computes F takes (val ∷ more) r
      → Settles F takes message more
          (and_then r (λ result s. and_then (decref val s) (λ _. result_or message result)))
  after-unary val more (ok none s) h =
      after_decref (Settles F takes message more) val more s (result_or message none) h.1
        λ h' bal. (h.0, refl, bal)
  after-unary val more (ok (some a) s) h =
      after_decref (Settles F takes message more) val (a ∷ more) s (result_or message (some a))
        (IsBalanced-count s.heap (a ∷ val ∷ more) (val ∷ a ∷ more) (λ b. omega arith) h.1)
        λ h' bal. (h.0, bal)
  after-unary val more (thrown e s) h = absurd h
  after-unary val more undefined h = h

-- An operator settles when its result is computed with exact counts, the operands still referred to.
pub binary-Settles :
    (F : Type 0) (takes : Bool) (op : String) (result_for : Obj → Obj → Result) (lhs rhs : Addr)
    (s : State) (c d : Cell) (more : List Addr)
    → cell_at s.heap lhs ≡ some c
    → cell_at s.heap rhs ≡ some d
    → Computes F takes (lhs ∷ rhs ∷ more) (result_for c.obj d.obj s)
    → Settles F takes
        (unsupported_operands op (type_name c.obj) (type_name d.obj))
        more
        (binary op result_for lhs rhs s)
unfolding binary obj_at
binary-Settles F takes op result_for lhs rhs s c d more e f h =
    rw (e, f)
      (finish-Settles F takes (unsupported_operands op (type_name c.obj) (type_name d.obj)) lhs rhs
        more (result_for c.obj d.obj s) h)

pub unary-Settles :
    (F : Type 0) (takes : Bool) (op : String) (result_for : Obj → Result) (val : Addr) (s : State)
    (c : Cell) (more : List Addr)
    → cell_at s.heap val ≡ some c
    → Computes F takes (val ∷ more) (result_for c.obj s)
    → Settles F takes (bad_operand op (type_name c.obj)) more (unary op result_for val s)
unfolding unary obj_at
unary-Settles F takes op result_for val s c more e h =
    rw e (after-unary F takes (bad_operand op (type_name c.obj)) val more (result_for c.obj s) h)
