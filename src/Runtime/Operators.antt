-- ===== src/Runtime/Operators.antt =====
-- pystd/src/logical_runtime.cpp: the arithmetic and the comparisons of numbers, and the
-- concatenations, with `valueToFloat` of runtime_util.cpp.
use Prim.Native.String.{◌++◌ as str_append}
use pycompile.Base.{
  ℕ, Bool, not, List, [], ◌∷◌, ◌++◌, Option, none, some, String, ◌==◌, if◌then◌else◌,
}
use pycompile.Base.Int.{
  ℤ, pos, ◌+ℤ◌, ◌-ℤ◌, ◌*ℤ◌, quot_ℤ, rem_ℤ, complement, is_zero_ℤ, fits, ltb_ℤ, leb_ℤ,
}
use pycompile.Runtime.Heap.{Addr, Obj, cell_at, none_addr, true_addr, false_addr}
use pycompile.Runtime.State.{
  Exception, undefined, Run, ◌>>=◌, ◌>>◌, pure, throw, decref, add_ref, new_obj,
}
use pycompile.Runtime.Sequences.{type_name, obj_at, append_to}

-- The operations of `double_t`, on 64-bit patterns. `to_int` is the conversion to `int64_t`, with
-- `none` where it is undefined.
pub record Doubles : Type 0 where
  pub add : ℕ → ℕ → ℕ
  pub subtract : ℕ → ℕ → ℕ
  pub multiply : ℕ → ℕ → ℕ
  pub divide : ℕ → ℕ → ℕ
  pub remainder : ℕ → ℕ → ℕ
  pub power : ℕ → ℕ → ℕ
  pub floor : ℕ → ℕ
  pub negate : ℕ → ℕ
  pub of_int : ℤ → ℕ
  pub to_int : ℕ → Option ℤ
  pub less : ℕ → ℕ → Bool
  pub less_equal : ℕ → ℕ → Bool
  pub is_zero : ℕ → Bool

-- The messages of a TypeError.
abbrev pub unsupported_operands : String → String → String → String
unsupported_operands op l r =
    str_append "Unsupported operand type(s) for "
      (str_append op (str_append ": '" (str_append l (str_append "' and '" (str_append r "'")))))

abbrev pub bad_operand : String → String → String
bad_operand op type =
    str_append "Bad operand type for " (str_append op (str_append ": '" (str_append type "'")))

-- A result is an object or, for types that the operator does not take, the null pointer.
abbrev pub Result : Type 0
Result = Run (Option Addr)

abbrev pub made : Obj → Result
made obj = do a ← new_obj obj; pure (some a)

-- An `int64_t` that overflows is undefined.
abbrev pub made_int : Option ℤ → Result
made_int none s = undefined
made_int (some i) s = made (Obj.int i) s

abbrev pub made_bool : Bool → Result
made_bool b = pure (some (if b then true_addr else false_addr))

abbrev pub checked : ℤ → Option ℤ
checked i = if fits i then some i else none

-- The two branches that most operators start with: both operands are ints, or each is an int or a
-- float and `valueToFloat` converts it.
abbrev pub numeric : Doubles → (ℤ → ℤ → Result) → (ℕ → ℕ → Result) → Result → Obj → Obj → Result
numeric doubles ints floats other (Obj.int i) (Obj.int j) = ints i j
numeric doubles ints floats other (Obj.int i) (Obj.float e) = floats (doubles.of_int i) e
numeric doubles ints floats other (Obj.float d) (Obj.int j) = floats d (doubles.of_int j)
numeric doubles ints floats other (Obj.float d) (Obj.float e) = floats d e
numeric doubles ints floats other l r = other

-- What every operator ends with: the operands are released, and a null pointer is a TypeError.
abbrev pub result_or : String → Option Addr → Run Addr
result_or message none = throw (Exception.type_error message)
result_or message (some a) = pure a

unfoldable pub finish : String → Addr → Addr → Option Addr → Run Addr
unfolding decref
finish message lhs rhs result = do decref lhs; decref rhs; result_or message result

-- An operator with two operands, by the result for their objects.
unfoldable pub binary : String → (Obj → Obj → Result) → Addr → Addr → Run Addr
unfolding obj_at finish type_name
binary op result_for lhs rhs = do
  l ← obj_at lhs
  r ← obj_at rhs
  result ← result_for l r
  finish (unsupported_operands op (type_name l) (type_name r)) lhs rhs result

-- `PyList::extend` from the elements of a list, a set or a tuple: each gets a reference of its own.
-- To grow a list while its own elements are read is undefined.
unfoldable pub extend_with : Addr → List Addr → Run Addr
unfolding add_ref
extend_with self [] = pure none_addr
extend_with self (x ∷ xs) = do
  add_ref x
  _ ← (λ s. append_to (cell_at s.heap self) self x s)
  extend_with self xs

abbrev own_elements : List Addr → Run Addr
own_elements [] = pure none_addr
own_elements (x ∷ xs) = λ s. undefined

abbrev pub extend_from : Addr → Addr → Obj → Run Addr
extend_from self source (Obj.list xs) =
    if source == self then own_elements xs else extend_with self xs
extend_from self source (Obj.set xs) = extend_with self xs
extend_from self source (Obj.tuple xs) = extend_with self xs
extend_from self source obj =
    throw
      (Exception.type_error (str_append "Can only extend with iterable types, got" (type_name obj)))

abbrev pub extend_check : Obj → Run (Unit {0})
extend_check (Obj.list xs) = pure tt
extend_check obj = throw (Exception.type_error "Can only extend list types")

unfoldable pub list_extend : Addr → List Addr → Run Addr
unfolding obj_at extend_with type_name
list_extend self (source ∷ []) = do
  obj ← obj_at self
  extend_check obj
  from ← obj_at source
  extend_from self source from
list_extend self args = throw (Exception.type_error "extend() takes exactly one argument")

-- Concatenations: of strings, of lists into a new list, and of tuples.
abbrev pub list_concat : Addr → Addr → Result
list_concat lhs rhs = do
  result ← new_obj (Obj.list [])
  _ ← list_extend result (lhs ∷ [])
  _ ← list_extend result (rhs ∷ [])
  pure (some result)

abbrev pub concat : Addr → Addr → Obj → Obj → Result
concat lhs rhs (Obj.str t) (Obj.str u) = made (Obj.str (t ++ u))
concat lhs rhs (Obj.list xs) (Obj.list ys) = list_concat lhs rhs
concat lhs rhs (Obj.tuple xs) (Obj.tuple ys) = made (Obj.tuple (xs ++ ys))
concat lhs rhs l r = pure none

unfoldable pub pyir_add : Doubles → Addr → Addr → Run Addr
unfolding binary list_extend new_obj ◌+ℤ◌
pyir_add doubles lhs rhs =
    binary "+"
      (λ l r.
        numeric doubles (λ i j. made_int (checked (i +ℤ j)))
          (λ d e. made (Obj.float (doubles.add d e))) (concat lhs rhs l r) l r)
      lhs rhs

unfoldable pub pyir_mul : Doubles → Addr → Addr → Run Addr
unfolding binary new_obj ◌*ℤ◌
pyir_mul doubles = binary "*" (
    numeric doubles (λ i j. made_int (checked (i *ℤ j)))
      (λ d e. made (Obj.float (doubles.multiply d e))) (pure none))

-- `/` always makes a float.
unfoldable pub pyir_div : Doubles → Addr → Addr → Run Addr
unfolding binary new_obj
pyir_div doubles = binary "/" (
    numeric doubles (λ i j. made (Obj.float (doubles.divide (doubles.of_int i) (doubles.of_int j))))
      (λ d e. made (Obj.float (doubles.divide d e))) (pure none))

-- `/` and `%` of `int64_t`: a zero divisor is undefined, and so is a quotient that does not fit, for
-- both.
unfoldable pub int_quotient : ℤ → ℤ → Option ℤ
unfolding quot_ℤ
int_quotient i j = if is_zero_ℤ j then none else checked (quot_ℤ i j)

unfoldable pub int_remainder : ℤ → ℤ → Option ℤ
unfolding quot_ℤ rem_ℤ
int_remainder i j =
    if is_zero_ℤ j then none else if fits (quot_ℤ i j) then some (rem_ℤ i j) else none

unfoldable pub pyir_floor_div : Doubles → Addr → Addr → Run Addr
unfolding binary new_obj int_quotient
pyir_floor_div doubles = binary "//" (
    numeric doubles (λ i j. made_int (int_quotient i j))
      (λ d e. made (Obj.float (doubles.floor (doubles.divide d e)))) (pure none))

-- `pow` is of doubles, also for ints.
unfoldable pub pyir_exp : Doubles → Addr → Addr → Run Addr
unfolding binary new_obj
pyir_exp doubles = binary "**" (
    numeric doubles
      (λ i j. made_int (doubles.to_int (doubles.power (doubles.of_int i) (doubles.of_int j))))
      (λ d e. made (Obj.float (doubles.power d e))) (pure none))

unfoldable pub pyir_mod : Doubles → Addr → Addr → Run Addr
unfolding binary new_obj int_remainder
pyir_mod doubles = binary "%" (
    numeric doubles (λ i j. made_int (int_remainder i j))
      (λ d e. made (Obj.float (doubles.remainder d e))) (pure none))

unfoldable pub pyir_lt : Doubles → Addr → Addr → Run Addr
unfolding binary
pyir_lt doubles = binary "<" (
    numeric doubles (λ i j. made_bool (ltb_ℤ i j)) (λ d e. made_bool (doubles.less d e))
      (pure none))

unfoldable pub pyir_le : Doubles → Addr → Addr → Run Addr
unfolding binary
pyir_le doubles = binary "<=" (
    numeric doubles (λ i j. made_bool (leb_ℤ i j)) (λ d e. made_bool (doubles.less_equal d e))
      (pure none))

unfoldable pub pyir_gt : Doubles → Addr → Addr → Run Addr
unfolding pyir_lt
pyir_gt doubles lhs rhs = pyir_lt doubles rhs lhs

unfoldable pub pyir_ge : Doubles → Addr → Addr → Run Addr
unfolding pyir_le
pyir_ge doubles lhs rhs = pyir_le doubles rhs lhs

-- An operator with one operand.
unfoldable pub unary : String → (Obj → Result) → Addr → Run Addr
unfolding obj_at decref type_name
unary op result_for val = do
  v ← obj_at val
  result ← result_for v
  decref val
  result_or (bad_operand op (type_name v)) result

abbrev pub negative : Doubles → Obj → Result
negative doubles (Obj.int i) = made_int (checked (pos 0 -ℤ i))
negative doubles (Obj.float d) = made (Obj.float (doubles.negate d))
negative doubles v = pure none

unfoldable pub pyir_unary_negative : Doubles → Addr → Run Addr
unfolding unary new_obj ◌-ℤ◌
pyir_unary_negative doubles = unary "-" (negative doubles)

abbrev pub negation : Obj → Result
negation (Obj.bool b) = made_bool (not b)
negation v = pure none

unfoldable pub pyir_unary_not : Addr → Run Addr
unfolding unary
pyir_unary_not = unary "not" negation

abbrev pub inversion : Obj → Result
inversion (Obj.int i) = made (Obj.int (complement i))
inversion v = pure none

unfoldable pub pyir_unary_invert : Addr → Run Addr
unfolding unary new_obj
pyir_unary_invert = unary "~" inversion
