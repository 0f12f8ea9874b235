-- ===== src/Runtime/Arguments.antt =====
-- The arguments of the builtin functions of pystd/src/builtin_runtime.cpp, and the operands of
-- `pyir_isTruthy` and `pyir_toBool`: the references that are given up.
use mathlib.Core.Path.{subst}
use pycompile.Base.{
  ◌≤◌, ◌≡◌, ◌≢◌, refl, sym, Bool, true, false, List, [], ◌∷◌, ◌++◌, some, String, length,
  if◌then◌else◌, arith,
}
use pycompile.Base.Int.{pos}
use pycompile.Runtime.Heap.{Addr, Obj, Cell, Heap, cell_at, children}
use pycompile.Runtime.Balance.{IsBalanced}
use pycompile.Runtime.State.{
  State, Exception, Outcome, ok, thrown, undefined, Run, and_then, pure, throw, decref,
}
use pycompile.Runtime.Sequences.{type_name, obj_at}
use pycompile.Runtime.Operators.{Doubles}
use pycompile.Runtime.Builtins.{
  is_truthy, bool_addr, decref_args, wrong_arguments, len, instance_of, instance_result,
  pyir_is_truthy, pyir_to_bool, pyir_builtin_len, pyir_builtin_bool, pyir_builtin_is_instance,
}
use pycompile.Runtime.Variables.{Returns, IsBalanced-count}
use pycompile.Runtime.Subscripts.{after_decref, and_then_assoc}
use pycompile.Runtime.Creation.{new_obj-IsBalanced}
use pycompile.Runtime.Contracts.{IsBalanced-immortal}

-- A counted result, or a TypeError, with exact counts for the references that are kept then.
abbrev pub Leaves : List Addr → List Addr → Outcome Addr → Type 0
Leaves more kept (ok a s) = IsBalanced s.heap (a ∷ more)
Leaves more kept (thrown (Exception.type_error text) s) = IsBalanced s.heap kept
Leaves more kept _ = ⊥

pub after_args :
    {A : Type 0} (C : Outcome A → Type 0) (args more : List Addr) (s : State) (k : Run A)
    → IsBalanced s.heap (args ++ more)
    → ((h : Heap) → IsBalanced h more → C (k (record s { heap = h })))
    → C (and_then (decref_args args s) (λ _. k))
unfolding decref_args
after_args C [] more s k bal f = f s.heap bal
after_args C (a ∷ args) more s k bal f =
    subst C (sym (and_then_assoc (decref a s) (λ _. decref_args args) (λ _. k))) (
      after_decref C a (args ++ more) s (λ t. and_then (decref_args args t) (λ _. k)) bal
        λ h bal'. after_args C args more (record s { heap = h }) k bal' f)

-- A TypeError, and exact counts for the references that are kept.
abbrev pub Raises : List Addr → Outcome Addr → Type 0
Raises kept (thrown (Exception.type_error text) s) = IsBalanced s.heap kept
Raises kept _ = ⊥

wrong-Raises :
    (message : String) (args more : List Addr) (s : State)
    → IsBalanced s.heap (args ++ more)
    → Raises more (wrong_arguments message args s)
wrong-Raises message args more s bal =
    after_args (Raises more) args more s (throw (Exception.type_error message)) bal λ h bal'. bal'

bool_addr-IsBalanced :
    (b : Bool) (s : State) (roots : List Addr)
    → IsBalanced s.heap roots
    → IsBalanced s.heap (bool_addr b ∷ roots)
bool_addr-IsBalanced true s roots bal = IsBalanced-immortal 1 s roots (omega arith) bal
bool_addr-IsBalanced false s roots bal = IsBalanced-immortal 2 s roots (omega arith) bal

-- The truth of a live object, when the counts are exact and the caller holds a reference to it:
-- `pyir_isTruthy` and `pyir_toBool` return, with the same answer, and give the reference up; the
-- counts are exact.
pub pyir_to_bool-IsBalanced :
    (doubles : Doubles) (val : Addr) (s : State) (c : Cell) (more : List Addr)
    → cell_at s.heap val ≡ some c
    → IsBalanced s.heap (val ∷ more)
    → Returns
        (λ n t. (n ≡ (if is_truthy doubles c.obj then 1 else 0)) × IsBalanced t.heap more)
        (pyir_is_truthy doubles val s)
      × Returns
          (λ a t. (a ≡ bool_addr (is_truthy doubles c.obj)) × IsBalanced t.heap (a ∷ more))
          (pyir_to_bool doubles val s)
unfolding pyir_is_truthy pyir_to_bool obj_at
pyir_to_bool-IsBalanced doubles val s c more live bal = rw live (
  after_decref
      (Returns (λ n t. (n ≡ (if is_truthy doubles c.obj then 1 else 0)) × IsBalanced t.heap more))
      val more s (pure (if is_truthy doubles c.obj then 1 else 0)) bal (λ h bal'. (refl, bal')),
  after_decref
      (Returns (λ a t. (a ≡ bool_addr (is_truthy doubles c.obj)) × IsBalanced t.heap (a ∷ more)))
      val more s (pure (bool_addr (is_truthy doubles c.obj))) bal
      (λ h bal'. (refl, bool_addr-IsBalanced _ (record s { heap = h }) more bal')),
)

-- A length, or no length: the argument stays with the caller either way.
len-Leaves :
    (obj : Obj) (s : State) (roots : List Addr)
    → 3 ≤ length s.heap
    → IsBalanced s.heap roots
    → Leaves roots roots (len obj s)
unfolding len children
len-Leaves (Obj.str text) s roots ge bal =
    (new_obj-IsBalanced (Obj.int (pos (length text))) s roots ge bal).1
len-Leaves (Obj.list xs) s roots ge bal =
    (new_obj-IsBalanced (Obj.int (pos (length xs))) s roots ge bal).1
len-Leaves (Obj.tuple xs) s roots ge bal =
    (new_obj-IsBalanced (Obj.int (pos (length xs))) s roots ge bal).1
len-Leaves (Obj.set xs) s roots ge bal =
    (new_obj-IsBalanced (Obj.int (pos (length xs))) s roots ge bal).1
len-Leaves (Obj.dict kvs) s roots ge bal =
    (new_obj-IsBalanced (Obj.int (pos (length kvs))) s roots ge bal).1
len-Leaves _ s roots ge bal = bal

after_len :
    (x : Addr) (more : List Addr) (r : Outcome Addr)
    → Leaves (x ∷ more) (x ∷ more) r
    → Leaves more (x ∷ more) (and_then r (λ n t. and_then (decref_args (x ∷ []) t) (λ _. pure n)))
after_len x more (ok n t) h =
    after_args (Leaves more (x ∷ more)) (x ∷ []) (n ∷ more) t (pure n)
      (IsBalanced-count t.heap (n ∷ x ∷ more) (x ∷ n ∷ more) (λ b. omega arith) h) λ h' bal. bal
after_len x more (thrown (Exception.type_error text) t) h = h
after_len x more (thrown _ t) h = absurd h
after_len x more undefined h = absurd h

instance-Leaves :
    (type : String) (fn : Obj) (s : State) (roots : List Addr)
    → IsBalanced s.heap roots
    → Leaves roots roots (instance_result (instance_of type fn) s)
instance-Leaves type (Obj.function name) s roots bal = bool_addr-IsBalanced _ s roots bal
instance-Leaves type _ s roots bal = bal

pub builtins-Leaves :
    (doubles : Doubles) (x y : Addr) (s : State) (c d : Cell) (more : List Addr)
    → cell_at s.heap x ≡ some c
    → cell_at s.heap y ≡ some d
    → 3 ≤ length s.heap
    → IsBalanced s.heap (x ∷ y ∷ more)
    → Leaves (y ∷ more) (x ∷ y ∷ more) (pyir_builtin_len (x ∷ []) s)
      × Leaves (y ∷ more) (y ∷ more) (pyir_builtin_bool doubles (x ∷ []) s)
      × Leaves (y ∷ more) (y ∷ more) (pyir_builtin_is_instance (x ∷ y ∷ []) s)
unfolding pyir_builtin_len pyir_builtin_bool pyir_builtin_is_instance obj_at
builtins-Leaves doubles x y s c d more live live' ge bal =
    rw (live, live')
      (
        after_len x (y ∷ more) (len c.obj s) (len-Leaves c.obj s (x ∷ y ∷ more) ge bal),
        after_args (Leaves (y ∷ more) (y ∷ more)) (x ∷ []) (y ∷ more) s
            (pure (bool_addr (is_truthy doubles c.obj))) bal
            (λ h bal'. bool_addr-IsBalanced _ (record s { heap = h }) (y ∷ more) bal'),
        after_decref (Leaves (y ∷ more) (y ∷ more)) x (y ∷ more) s
            (instance_result (instance_of (type_name c.obj) d.obj)) bal
            (λ h bal'.
              instance-Leaves (type_name c.obj) d.obj (record s { heap = h }) (y ∷ more) bal'),
      )

-- Called with another number of arguments than one, when the counts are exact and the caller holds a
-- reference to each of them: `len` and `bool` raise a TypeError, and give all the references up.
pub builtins-wrong-Raises :
    (doubles : Doubles) (args more : List Addr) (s : State)
    → length args ≢ 1
    → IsBalanced s.heap (args ++ more)
    → Raises more (pyir_builtin_len args s) × Raises more (pyir_builtin_bool doubles args s)
unfolding pyir_builtin_len pyir_builtin_bool
builtins-wrong-Raises doubles [] more s ne bal = (bal, bal)
builtins-wrong-Raises doubles (x ∷ []) more s ne bal = absurd (ne refl)
builtins-wrong-Raises doubles (x ∷ y ∷ rest) more s ne bal = (
  wrong-Raises "len() takes exactly one argument" (x ∷ y ∷ rest) more s bal,
  wrong-Raises "bool() takes exactly one argument" (x ∷ y ∷ rest) more s bal,
)
