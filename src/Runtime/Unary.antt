-- ===== src/Runtime/Unary.antt =====
-- The operators with one operand of pystd/src/logical_runtime.cpp: what they take, when they are
-- undefined, and the references that they give up.
use pycompile.Base.{◌≤◌, ◌≡◌, Bool, true, false, not, List, ◌∷◌, Option, none, some, length, refl}
use pycompile.Base.Int.{ℤ, pos, ◌-ℤ◌, complement}
use pycompile.Runtime.Heap.{Addr, Obj, Cell, cell_at, children}
use pycompile.Runtime.Balance.{IsBalanced}
use pycompile.Runtime.State.{State}
use pycompile.Runtime.Sequences.{type_name}
use pycompile.Runtime.Operators.{
  Doubles, bad_operand, made_int, checked, negative, negation, inversion, pyir_unary_negative,
  pyir_unary_not, pyir_unary_invert,
}
use pycompile.Runtime.Contracts.{
  Computes, Settles, made-Computes, made_bool-Computes, unary-Settles,
}
use pycompile.Runtime.Numbers.{is_number}

-- The types that each unary operator takes.
abbrev pub is_bool : Obj → Bool
is_bool (Obj.bool b) = true
is_bool _ = false

abbrev pub is_int : Obj → Bool
is_int (Obj.int i) = true
is_int _ = false

-- The least int, which has no negation.
abbrev pub NegationFault : Obj → Type 0
NegationFault (Obj.int i) = checked (pos 0 -ℤ i) ≡ none
NegationFault _ = ⊥

negative-Computes :
    (doubles : Doubles) (v : Obj) (roots : List Addr) (s : State)
    → 3 ≤ length s.heap
    → IsBalanced s.heap roots
    → Computes (NegationFault v) (is_number v) roots (negative doubles v s)
unfolding children
negative-Computes doubles (Obj.int i) roots s ge bal = go (checked (pos 0 -ℤ i)) refl
  where
    go :
        (o : Option ℤ)
        → checked (pos 0 -ℤ i) ≡ o
        → Computes (NegationFault (Obj.int i)) true roots (made_int o s)
    go none e = e
    go (some k) e =
        made-Computes (NegationFault (Obj.int i)) true roots s (Obj.int k) refl refl ge bal
negative-Computes doubles (Obj.float d) roots s ge bal =
    made-Computes ⊥ true roots s (Obj.float (doubles.negate d)) refl refl ge bal
negative-Computes doubles _ roots s ge bal = (refl, bal)

negation-Computes :
    (v : Obj) (roots : List Addr) (s : State)
    → IsBalanced s.heap roots
    → Computes ⊥ (is_bool v) roots (negation v s)
negation-Computes (Obj.bool b) roots s bal = made_bool-Computes ⊥ true roots s (not b) refl bal
negation-Computes _ roots s bal = (refl, bal)

inversion-Computes :
    (v : Obj) (roots : List Addr) (s : State)
    → 3 ≤ length s.heap
    → IsBalanced s.heap roots
    → Computes ⊥ (is_int v) roots (inversion v s)
unfolding children
inversion-Computes (Obj.int i) roots s ge bal =
    made-Computes ⊥ true roots s (Obj.int (complement i)) refl refl ge bal
inversion-Computes _ roots s ge bal = (refl, bal)

pub unary-IsBalanced :
    (doubles : Doubles) (s : State) (val : Addr) (c : Cell) (more : List Addr)
    → cell_at s.heap val ≡ some c
    → 3 ≤ length s.heap
    → IsBalanced s.heap (val ∷ more)
    → Settles
        (NegationFault c.obj)
        (is_number c.obj)
        (bad_operand "-" (type_name c.obj))
        more
        (pyir_unary_negative doubles val s)
      × Settles ⊥ (is_bool c.obj) (bad_operand "not" (type_name c.obj)) more (pyir_unary_not val s)
      × Settles ⊥ (is_int c.obj) (bad_operand "~" (type_name c.obj)) more (pyir_unary_invert val s)
unfolding pyir_unary_negative pyir_unary_not pyir_unary_invert
unary-IsBalanced doubles s val c more live ge bal = (
  unary-Settles (NegationFault c.obj) (is_number c.obj) "-" (negative doubles) val s c more live
      (negative-Computes doubles c.obj (val ∷ more) s ge bal),
  unary-Settles ⊥ (is_bool c.obj) "not" negation val s c more live
      (negation-Computes c.obj (val ∷ more) s bal),
  unary-Settles ⊥ (is_int c.obj) "~" inversion val s c more live
      (inversion-Computes c.obj (val ∷ more) s ge bal),
)
