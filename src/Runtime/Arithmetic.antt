-- ===== src/Runtime/Arithmetic.antt =====
-- The operators on numbers of pystd/src/logical_runtime.cpp: what they take, when they are undefined,
-- and the references that they give up.
use pycompile.Base.{ℕ, ◌≤◌, ◌≡◌, Bool, List, ◌∷◌, Option, none, some, String, length, refl, arith}
use pycompile.Base.Int.{ℤ, ltb_ℤ, leb_ℤ, ◌*ℤ◌}
use pycompile.Runtime.Heap.{Addr, Obj, Cell, cell_at}
use pycompile.Runtime.Balance.{IsBalanced}
use pycompile.Runtime.State.{State, Outcome, pure}
use pycompile.Runtime.Sequences.{type_name}
use pycompile.Runtime.Operators.{
  Doubles, unsupported_operands, made, made_int, made_bool, checked, binary, numeric, int_quotient,
  int_remainder, pyir_mul, pyir_div, pyir_floor_div, pyir_exp, pyir_mod, pyir_lt, pyir_le, pyir_gt,
  pyir_ge,
}
use pycompile.Runtime.Variables.{IsBalanced-count}
use pycompile.Runtime.Answers.{
  Answer, Answers, answer, int_answer, numeric-Made, made_int-Made, made_float-Made, binary-Answers,
}
use pycompile.Runtime.Numbers.{
  numbers, IntFault, numeric-Computes, float-Computes, compare-Computes,
}
use pycompile.Runtime.Contracts.{Settles, binary-Settles}

-- What an operator on numbers comes to, for the name in its message, the int operation, which may
-- have no result, and the operation on doubles.
abbrev pub SettlesNumbers :
    Doubles
    → String
    → (ℤ → ℤ → Option ℤ)
    → (ℕ → ℕ → ℕ)
    → Obj
    → Obj
    → List Addr
    → Outcome Addr
    → Type 0
SettlesNumbers doubles op f g l r more out =
    Settles (IntFault f l r) (numbers l r) (unsupported_operands op (type_name l) (type_name r))
      more out
    × Answers (answer doubles (λ i j. int_answer (f i j)) (λ x y. Answer.float (g x y)) l r) out

-- `*`, `//`, `**` and `%` of two live operands, when the counts are exact and the caller holds a
-- reference to each: both references are given up, and when each operand is an int or a float, a
-- counted object is returned, which is the int that the int operation gives for two ints, and else the
-- float that the operation on doubles gives for both values as doubles. For any other operand a
-- TypeError with the operator and both types is raised; it is undefined only for two ints, and only
-- when the product or quotient does not fit, the divisor is zero, or the power is not in the range of
-- an int. The counts are exact, also after the exception.
pub arithmetic-IsBalanced :
    (doubles : Doubles) (s : State) (lhs rhs : Addr) (c d : Cell) (more : List Addr)
    → cell_at s.heap lhs ≡ some c
    → cell_at s.heap rhs ≡ some d
    → 3 ≤ length s.heap
    → IsBalanced s.heap (lhs ∷ rhs ∷ more)
    → SettlesNumbers doubles "*"
        (λ i j. checked (i *ℤ j))
        doubles.multiply
        c.obj
        d.obj
        more
        (pyir_mul doubles lhs rhs s)
      × SettlesNumbers doubles "//" int_quotient
          (λ x y. doubles.floor (doubles.divide x y))
          c.obj
          d.obj
          more
          (pyir_floor_div doubles lhs rhs s)
      × SettlesNumbers doubles "**"
          (λ i j. doubles.to_int (doubles.power (doubles.of_int i) (doubles.of_int j)))
          doubles.power
          c.obj
          d.obj
          more
          (pyir_exp doubles lhs rhs s)
      × SettlesNumbers doubles "%" int_remainder doubles.remainder c.obj d.obj more
          (pyir_mod doubles lhs rhs s)
unfolding pyir_mul pyir_floor_div pyir_exp pyir_mod
arithmetic-IsBalanced doubles s lhs rhs c d more live live' ge bal = (
  by_ints "*" (λ i j. checked (i *ℤ j)) doubles.multiply,
  by_ints "//" int_quotient (λ x y. doubles.floor (doubles.divide x y)),
  by_ints "**" (λ i j. doubles.to_int (doubles.power (doubles.of_int i) (doubles.of_int j)))
      doubles.power,
  by_ints "%" int_remainder doubles.remainder,
)
  where
    by_ints :
        (op : String) (f : ℤ → ℤ → Option ℤ) (g : ℕ → ℕ → ℕ)
        → SettlesNumbers doubles op f g c.obj d.obj more (
            binary op
              (numeric doubles
                (λ i j. made_int (f i j))
                (λ x y. made (Obj.float (g x y)))
                (pure none))
              lhs
              rhs
              s)
    by_ints op f g =
        let computed = numeric-Computes doubles f g c.obj d.obj (lhs ∷ rhs ∷ more) s ge bal in
        let result_for =
          numeric doubles (λ i j. made_int (f i j)) (λ x y. made (Obj.float (g x y))) (pure none) in
        (
          binary-Settles (IntFault f c.obj d.obj) (numbers c.obj d.obj) op result_for lhs rhs s c d
              more live live' computed,
          binary-Answers
              (answer doubles (λ i j. int_answer (f i j)) (λ x y. Answer.float (g x y)) c.obj d.obj)
              (IntFault f c.obj d.obj) (numbers c.obj d.obj) op result_for lhs rhs s c d more live
              live' computed
              (numeric-Made doubles (λ i j. made_int (f i j)) (λ x y. made (Obj.float (g x y)))
                (λ i j. int_answer (f i j)) (λ x y. Answer.float (g x y)) c.obj d.obj s
                (λ i j. made_int-Made (f i j) s ge) (λ x y. made_float-Made (g x y) s ge)),
        )

-- What an operator comes to that is never undefined, for its answers to two ints and to doubles.
abbrev pub SettlesTotal :
    Doubles
    → String
    → (ℤ → ℤ → Answer)
    → (ℕ → ℕ → Answer)
    → Obj
    → Obj
    → List Addr
    → Outcome Addr
    → Type 0
SettlesTotal doubles op f g l r more out =
    Settles ⊥ (numbers l r) (unsupported_operands op (type_name l) (type_name r)) more out
    × Answers (answer doubles (λ i j. some (f i j)) g l r) out

abbrev pub SettlesOrder :
    Doubles
    → String
    → (ℤ → ℤ → Bool)
    → (ℕ → ℕ → Bool)
    → Obj
    → Obj
    → List Addr
    → Outcome Addr
    → Type 0
SettlesOrder doubles op f g =
    SettlesTotal doubles op (λ i j. Answer.bool (f i j)) (λ x y. Answer.bool (g x y))

compare-Settles :
    (op : String) (doubles : Doubles) (f : ℤ → ℤ → Bool) (g : ℕ → ℕ → Bool) (s : State)
    (lhs rhs : Addr) (c d : Cell) (more : List Addr)
    → cell_at s.heap lhs ≡ some c
    → cell_at s.heap rhs ≡ some d
    → IsBalanced s.heap (lhs ∷ rhs ∷ more)
    → SettlesOrder doubles op f g c.obj d.obj more (
        binary op
          (numeric doubles (λ i j. made_bool (f i j)) (λ x y. made_bool (g x y)) (pure none))
          lhs
          rhs
          s)
compare-Settles op doubles f g s lhs rhs c d more live live' bal =
    let computed = compare-Computes doubles f g c.obj d.obj (lhs ∷ rhs ∷ more) s bal in
    let result_for =
      numeric doubles (λ i j. made_bool (f i j)) (λ x y. made_bool (g x y)) (pure none) in
    (
      binary-Settles ⊥ (numbers c.obj d.obj) op result_for lhs rhs s c d more live live' computed,
      binary-Answers
          (answer doubles (λ i j. some (Answer.bool (f i j))) (λ x y. Answer.bool (g x y)) c.obj
            d.obj)
          ⊥ (numbers c.obj d.obj) op result_for lhs rhs s c d more live live' computed
          (numeric-Made doubles (λ i j. made_bool (f i j)) (λ x y. made_bool (g x y))
            (λ i j. some (Answer.bool (f i j))) (λ x y. Answer.bool (g x y)) c.obj d.obj s
            (λ i j. refl) (λ x y. refl)),
    )

-- `/`, `<`, `<=`, `>` and `>=` of two live operands, when the counts are exact and the caller holds a
-- reference to each: both references are given up, and when each operand is an int or a float, a
-- counted object is returned: for `/` the float that is the quotient of the values as doubles, for the
-- others the bool that says how two ints, or else the values as doubles, compare. For any other operand
-- a TypeError with both types is raised; for `>` and `>=` it is that of `<` and `<=` with the operands
-- exchanged, name included. They are never undefined, and the counts are exact.
pub comparison-IsBalanced :
    (doubles : Doubles) (s : State) (lhs rhs : Addr) (c d : Cell) (more : List Addr)
    → cell_at s.heap lhs ≡ some c
    → cell_at s.heap rhs ≡ some d
    → 3 ≤ length s.heap
    → IsBalanced s.heap (lhs ∷ rhs ∷ more)
    → SettlesTotal doubles "/"
        (λ i j. Answer.float (doubles.divide (doubles.of_int i) (doubles.of_int j)))
        (λ x y. Answer.float (doubles.divide x y))
        c.obj
        d.obj
        more
        (pyir_div doubles lhs rhs s)
      × SettlesOrder doubles "<" ltb_ℤ doubles.less c.obj d.obj more (pyir_lt doubles lhs rhs s)
      × SettlesOrder doubles "<=" leb_ℤ doubles.less_equal c.obj d.obj more
          (pyir_le doubles lhs rhs s)
      × SettlesOrder doubles "<" ltb_ℤ doubles.less d.obj c.obj more (pyir_gt doubles lhs rhs s)
      × SettlesOrder doubles "<=" leb_ℤ doubles.less_equal d.obj c.obj more
          (pyir_ge doubles lhs rhs s)
unfolding pyir_div pyir_lt pyir_le pyir_gt pyir_ge
comparison-IsBalanced doubles s lhs rhs c d more live live' ge bal = (
  divided,
  compare-Settles "<" doubles ltb_ℤ doubles.less s lhs rhs c d more live live' bal,
  compare-Settles "<=" doubles leb_ℤ doubles.less_equal s lhs rhs c d more live live' bal,
  compare-Settles "<" doubles ltb_ℤ doubles.less s rhs lhs d c more live' live swapped,
  compare-Settles "<=" doubles leb_ℤ doubles.less_equal s rhs lhs d c more live' live swapped,
)
  where
    swapped : IsBalanced s.heap (rhs ∷ lhs ∷ more)
    swapped = IsBalanced-count s.heap (lhs ∷ rhs ∷ more) (rhs ∷ lhs ∷ more) (λ b. omega arith) bal

    divided :
        SettlesTotal doubles "/"
          (λ i j. Answer.float (doubles.divide (doubles.of_int i) (doubles.of_int j)))
          (λ x y. Answer.float (doubles.divide x y))
          c.obj
          d.obj
          more
          (pyir_div doubles lhs rhs s)
    divided =
        let computed =
          float-Computes doubles (λ i j. doubles.divide (doubles.of_int i) (doubles.of_int j))
            doubles.divide c.obj d.obj (lhs ∷ rhs ∷ more) s ge bal in
        let result_for =
          numeric doubles
            (λ i j. made (Obj.float (doubles.divide (doubles.of_int i) (doubles.of_int j))))
            (λ x y. made (Obj.float (doubles.divide x y))) (pure none) in
        (
          binary-Settles ⊥ (numbers c.obj d.obj) "/" result_for lhs rhs s c d more live live'
              computed,
          binary-Answers
              (answer doubles
                (λ i j. some (Answer.float (doubles.divide (doubles.of_int i) (doubles.of_int j))))
                (λ x y. Answer.float (doubles.divide x y)) c.obj d.obj)
              ⊥ (numbers c.obj d.obj) "/" result_for lhs rhs s c d more live live' computed
              (numeric-Made doubles
                (λ i j. made (Obj.float (doubles.divide (doubles.of_int i) (doubles.of_int j))))
                (λ x y. made (Obj.float (doubles.divide x y)))
                (λ i j. some (Answer.float (doubles.divide (doubles.of_int i) (doubles.of_int j))))
                (λ x y. Answer.float (doubles.divide x y)) c.obj d.obj s
                (λ i j. made_float-Made _ s ge) (λ x y. made_float-Made _ s ge)),
        )
