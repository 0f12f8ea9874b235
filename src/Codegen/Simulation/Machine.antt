-- ===== src/Codegen/Simulation/Machine.antt =====
-- The reference: a stack machine that runs straight-line bytecode on values, with the effect on the
-- stack that CPython 3.14 documents for each instruction. LOAD_GLOBAL and LOAD_ATTR push a null only
-- when their low bit is set, which `dis` writes at the end of `argrepr`; the argument of LOAD_DEREF
-- and STORE_DEREF is a name. Of CALL it has the case of a null below the arguments, and of LOAD_ATTR
-- that of an attribute with the null above it. `exec` is the runtime library, and an
-- operation of it is named by the PyIR operation that calls it. `none` is an instruction that
-- cannot run: its argument is of the wrong kind, or the stack is too short.
use text.Mathlib.Text.{◌==◌ as str_eq}
use Prim.Native.String.{◌++◌ as str_append}
use mathlib.Core.List.{reverse}
use pycompile.Base.{
  Bool, true, false, ℕ, suc, ◌*◌, List, [], ◌∷◌, Option, none, some, String, map, length, get_elem?,
  set, take, drop, leb, if◌then◌else◌,
}
use pycompile.Base.Int.{ℤ, pos}
use pycompile.Bytecode.{Opcode, CodeInfo, Argval, instr, Instructions, nil, cons}
use pycompile.Pyir.{Scalar, Attr, OpName}
use pycompile.Codegen.Memory.{scalar_of}

pub record Machine (V S : Type 0) : Type 0 where
  pub stack : List V
  pub rt : S

-- The kinds of arguments.
abbrev pub with_str {ℓ} : {A : Type ℓ} → Argval → (String → Option A) → Option A
with_str (Argval.str t) f = f t
with_str _ f = none

abbrev pub with_int {ℓ} : {A : Type ℓ} → Argval → (ℤ → Option A) → Option A
with_int (Argval.int i) f = f i
with_int _ f = none

-- A count is not negative, and a stack index counts from 1 at the top.
abbrev pub with_count {ℓ} : {A : Type ℓ} → Argval → (ℕ → Option A) → Option A
with_count (Argval.int (pos n)) f = f n
with_count _ f = none

abbrev pub with_index {ℓ} : {A : Type ℓ} → Argval → (ℕ → Option A) → Option A
with_index (Argval.int (pos (suc i))) f = f i
with_index _ f = none

abbrev pub and_some {ℓ κ} : {A : Type ℓ} {B : Type κ} → Option A → (A → Option B) → Option B
and_some none f = none
and_some (some a) f = f a

-- The attribute of a constant.
abbrev pub constant_of : Argval → Option Attr
constant_of Argval.none = some Attr.none
constant_of (Argval.bool b) = some (Attr.scalar (Scalar.bool b))
constant_of (Argval.int i) = some (Attr.scalar (Scalar.int i))
constant_of (Argval.float d) = some (Attr.scalar (Scalar.float d))
constant_of (Argval.str t) = some (Attr.scalar (Scalar.str t))
constant_of (Argval.tuple vs) = some (Attr.array (map scalar_of vs))
constant_of (Argval.code m) = none

module _ {V S : Type 0} (exec : OpName → List V → S → V × S) where
  -- Runs an operation on arguments, and pushes its value on the rest of the stack.
  abbrev pub produce : OpName → List V → List V → S → Option (Machine V S)
  produce name args rest rt =
      some (record { stack = (exec name args rt).0 ∷ rest; rt = (exec name args rt).1 })

  -- Runs an operation for its effect.
  abbrev pub perform : OpName → List V → List V → S → Option (Machine V S)
  perform name args rest rt = some (record { stack = rest; rt = (exec name args rt).1 })

  abbrev pub unary : OpName → List V → S → Option (Machine V S)
  unary name [] rt = none
  unary name (x ∷ xs) rt = produce name (x ∷ []) xs rt

  -- The right operand is on top.
  abbrev pub binary : OpName → List V → S → Option (Machine V S)
  binary name [] rt = none
  binary name (x ∷ []) rt = none
  binary name (y ∷ x ∷ xs) rt = produce name (x ∷ y ∷ []) xs rt

  -- The container is on top, and is the first argument.
  abbrev pub contains : OpName → List V → S → Option (Machine V S)
  contains name [] rt = none
  contains name (x ∷ []) rt = none
  contains name (c ∷ x ∷ xs) rt = produce name (c ∷ x ∷ []) xs rt

  abbrev pub store : OpName → List V → S → Option (Machine V S)
  store name [] rt = none
  store name (x ∷ xs) rt = perform name (x ∷ []) xs rt

  -- TOS1[TOS] = TOS2
  abbrev pub store_item : List V → S → Option (Machine V S)
  store_item (i ∷ c ∷ x ∷ xs) rt = perform OpName.store_subscr (c ∷ i ∷ x ∷ []) xs rt
  store_item _ rt = none

  -- The topmost `n` values, the oldest first, make one.
  abbrev pub collect : OpName → ℕ → List V → S → Option (Machine V S)
  collect name n xs rt =
      if leb n (length xs) then produce name (reverse (take n xs)) (drop n xs) rt else none

  -- A call takes `n` arguments, the null below them, and the callee.
  abbrev pub call_on : List V → List V → S → Option (Machine V S)
  call_on args (_ ∷ callee ∷ xs) rt = produce OpName.call (callee ∷ args) xs rt
  call_on args _ rt = none

  abbrev pub call : ℕ → List V → S → Option (Machine V S)
  call n xs rt = if leb n (length xs) then call_on (reverse (take n xs)) (drop n xs) rt else none

  -- The top is added to the container at an index of the rest.
  abbrev pub add_to : OpName → ℕ → List V → S → Option (Machine V S)
  add_to name i [] rt = none
  add_to name i (x ∷ xs) rt = and_some (get_elem? xs i) (λ c. perform name (c ∷ x ∷ []) xs rt)

  abbrev pub add_pair : ℕ → List V → S → Option (Machine V S)
  add_pair i (x ∷ k ∷ xs) rt =
      and_some (get_elem? xs i) (λ c. perform OpName.map_add (c ∷ k ∷ x ∷ []) xs rt)
  add_pair i _ rt = none

  -- A value with the null of the calling convention above it.
  abbrev pub push_null : Machine V S → Option (Machine V S)
  push_null m = produce OpName.push_null [] m.stack m.rt

  -- The null is pushed when `argrepr` is the name with this end.
  abbrev pub null_if : Bool → Machine V S → Option (Machine V S)
  null_if true = push_null
  null_if false = some

  -- The value at an index once more.
  abbrev pub copy : ℕ → List V → S → Option (Machine V S)
  copy i xs rt = and_some (get_elem? xs i) (λ x. some (record { stack = x ∷ xs; rt = rt }))

  -- The top trades places with the value at an index.
  abbrev pub exchange : ℕ → List V → S → Option (Machine V S)
  exchange i [] rt = none
  exchange i (x ∷ xs) rt =
      and_some (get_elem? (x ∷ xs) i)
        (λ y. some (record { stack = set (set (x ∷ xs) i x) 0 y; rt = rt }))

  abbrev pub discard : List V → S → Option (Machine V S)
  discard [] rt = none
  discard (x ∷ xs) rt = some (record { stack = xs; rt = rt })

  abbrev pub if_named : String → Option (Machine V S) → Option (Machine V S)
  if_named repr m = if str_eq repr "" then none else m

  -- One straight-line instruction. The other instructions have no step.
  unfoldable pub step : Opcode → String → CodeInfo → Argval → Machine V S → Option (Machine V S)
  step Opcode.resume repr info arg m = some m
  step Opcode.not_taken repr info arg m = some m
  step Opcode.build_string repr info arg m =
      with_count arg (λ n. collect OpName.build_string n m.stack m.rt)
  step Opcode.build_list repr info arg m =
      with_count arg (λ n. collect OpName.build_list n m.stack m.rt)
  step Opcode.build_set repr info arg m =
      with_count arg (λ n. collect OpName.build_set n m.stack m.rt)
  step Opcode.build_map repr info arg m =
      with_count arg (λ n. collect OpName.build_map (n * 2) m.stack m.rt)
  step Opcode.list_extend repr info arg m =
      with_index arg (λ i. add_to OpName.list_extend i m.stack m.rt)
  step Opcode.list_append repr info arg m =
      with_index arg (λ i. add_to OpName.list_append i m.stack m.rt)
  step Opcode.set_update repr info arg m =
      with_index arg (λ i. add_to OpName.set_update i m.stack m.rt)
  step Opcode.set_add repr info arg m = with_index arg (λ i. add_to OpName.set_add i m.stack m.rt)
  step Opcode.map_add repr info arg m = with_index arg (λ i. add_pair i m.stack m.rt)
  step Opcode.get_iter repr info arg m = unary OpName.get_iter m.stack m.rt
  step Opcode.call repr info arg m = with_count arg (λ n. call n m.stack m.rt)
  step Opcode.binary_op repr info arg m =
      if_named repr (binary (OpName.binary_op repr) m.stack m.rt)
  step Opcode.compare_op repr info arg m =
      if_named repr (binary (OpName.compare_op repr) m.stack m.rt)
  step Opcode.contains_op repr info arg m =
      if_named repr (contains (OpName.contains_op repr) m.stack m.rt)
  step Opcode.to_bool repr info arg m = unary OpName.to_bool m.stack m.rt
  step Opcode.unary_not repr info arg m = unary OpName.unary_not m.stack m.rt
  step Opcode.unary_negative repr info arg m = unary OpName.unary_negative m.stack m.rt
  step Opcode.unary_invert repr info arg m = unary OpName.unary_invert m.stack m.rt
  step Opcode.format_simple repr info arg m = unary OpName.format_simple m.stack m.rt
  step Opcode.load_small_int repr info arg m =
      with_int arg (λ i. produce (OpName.load_const (Attr.scalar (Scalar.int i))) [] m.stack m.rt)
  step Opcode.load_const repr info arg m =
      and_some (constant_of arg) (λ c. produce (OpName.load_const c) [] m.stack m.rt)
  step Opcode.load_global repr info arg m = with_str arg (λ n.
      and_some (produce (OpName.load_name n) [] m.stack m.rt)
        (null_if (str_eq repr (str_append n " + NULL"))))
  step Opcode.load_attr repr info arg m = with_str arg (λ n.
      and_some (unary (OpName.load_attr n) m.stack m.rt)
        (null_if (str_eq repr (str_append n " + NULL|self"))))
  step Opcode.load_fast_borrow repr info arg m =
      with_str arg (λ n. produce (OpName.load_fast n) [] m.stack m.rt)
  step Opcode.load_fast repr info arg m =
      with_str arg (λ n. produce (OpName.load_fast n) [] m.stack m.rt)
  step Opcode.load_name repr info arg m =
      with_str arg (λ n. produce (OpName.load_name n) [] m.stack m.rt)
  step Opcode.load_fast_and_clear repr info arg m =
      with_str arg (λ n. produce (OpName.load_fast_and_clear n) [] m.stack m.rt)
  step Opcode.store_name repr info arg m =
      with_str arg (λ n. store (OpName.store_name n) m.stack m.rt)
  step Opcode.store_fast repr info arg m =
      with_str arg (λ n. store (OpName.store_fast n) m.stack m.rt)
  step Opcode.load_deref repr info arg m =
      with_str arg (λ n. produce (OpName.load_deref n) [] m.stack m.rt)
  step Opcode.store_deref repr info arg m =
      with_str arg (λ n. store (OpName.store_deref n) m.stack m.rt)
  step Opcode.store_subscr repr info arg m = store_item m.stack m.rt
  step Opcode.push_null repr info arg m = push_null m
  step Opcode.pop_top repr info arg m = discard m.stack m.rt
  step Opcode.copy repr info arg m = with_index arg (λ i. copy i m.stack m.rt)
  step Opcode.swap repr info arg m = with_index arg (λ i. exchange i m.stack m.rt)
  step _ repr info arg m = none

  -- A list of instructions, up to the first that cannot run.
  unfoldable pub run_machine : CodeInfo → Instructions → Machine V S → Option (Machine V S)
  run_machine info nil m = some m
  run_machine info (cons (instr offset opcode repr line starts type arg) rest) m =
      and_some (step opcode repr info arg m) (run_machine info rest)
