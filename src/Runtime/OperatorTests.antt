-- ===== src/Runtime/OperatorTests.antt =====
-- The operators of the runtime on two ints, and on two lists that share a string.
use pycompile.Base.{
  zero, suc, ◌+◌, ◌-◌, ◌*◌, ◌/◌, ◌%◌, ◌≡◌, refl, true, false, none, some, [], ◌∷◌, ltb, leb, ◌==◌,
  arith,
}
use pycompile.Base.Int.{pos, negsuc, pos_part, ltb_ℤ, leb_ℤ, ◌*ℤ◌}
use pycompile.Runtime.Heap.{Obj, Cell, Heap, cell_at, children}
use pycompile.Runtime.Balance.{HasRoom, IsBalanced}
use pycompile.Runtime.State.{State}
use pycompile.Runtime.Sequences.{type_name}
use pycompile.Runtime.Variables.{module_state, Returns}
use pycompile.Runtime.Operators.{
  Doubles, checked, int_quotient, int_remainder, list_extend, pyir_add, pyir_mul, pyir_div,
  pyir_floor_div, pyir_exp, pyir_mod, pyir_lt, pyir_le, pyir_gt, pyir_ge, pyir_unary_negative,
  pyir_unary_not, pyir_unary_invert, bad_operand, unsupported_operands,
}
use pycompile.Runtime.Answers.{Answer}
use pycompile.Runtime.Contracts.{Settles}
use pycompile.Runtime.Arithmetic.{
  SettlesNumbers, SettlesTotal, SettlesOrder, arithmetic-IsBalanced, comparison-IsBalanced,
}
use pycompile.Runtime.Unary.{NegationFault, unary-IsBalanced}
use pycompile.Runtime.Division.{IsDivision, int_quotient-IsDivision}
use pycompile.Runtime.Concat.{Extended, list_extend-Extended}
use pycompile.Runtime.Addition.{pyir_add-IsBalanced}

-- Doubles that are whole and not negative, by their value.
abbrev whole : Doubles
whole = record {
  add = λ a b. a + b;
  subtract = λ a b. a - b;
  multiply = λ a b. a * b;
  divide = λ a b. a / b;
  remainder = λ a b. a % b;
  power = λ a b. a * b;
  floor = λ a. a;
  negate = λ a. 0;
  of_int = pos_part;
  to_int = λ a. some (pos a);
  less = ltb;
  less_equal = leb;
  is_zero = λ a. a == 0;
}

-- -7 and 2, both on the operand stack.
abbrev ints_heap : Heap
ints_heap =
    some (record { refs = 1; obj = Obj.none_obj })
    ∷ some (record { refs = 1; obj = Obj.bool true })
    ∷ some (record { refs = 1; obj = Obj.bool false })
    ∷ some (record { refs = 1; obj = Obj.int (negsuc 6) })
    ∷ some (record { refs = 1; obj = Obj.int (pos 2) })
    ∷ []

abbrev minus_seven : Cell
minus_seven = record { refs = 1; obj = Obj.int (negsuc 6) }

abbrev two : Cell
two = record { refs = 1; obj = Obj.int (pos 2) }

ints_heap-IsBalanced : IsBalanced ints_heap (3 ∷ 4 ∷ [])
unfolding children
ints_heap-IsBalanced zero h = absurd (omega arith)
ints_heap-IsBalanced (suc zero) h = absurd (omega arith)
ints_heap-IsBalanced (suc (suc zero)) h = absurd (omega arith)
ints_heap-IsBalanced (suc (suc (suc zero))) h = (refl, omega arith, omega arith)
ints_heap-IsBalanced (suc (suc (suc (suc zero)))) h = (refl, omega arith, omega arith)
ints_heap-IsBalanced (suc (suc (suc (suc (suc a))))) h = ground arith

abbrev ints_state : State
ints_state = module_state ints_heap [] []

arithmetic-IsBalanced_example :
    SettlesNumbers whole "*"
      (λ i j. checked (i *ℤ j))
      (λ x y. x * y)
      (Obj.int (negsuc 6))
      (Obj.int (pos 2))
      []
      (pyir_mul whole 3 4 ints_state)
    × SettlesNumbers whole "//" int_quotient
        (λ x y. x / y)
        (Obj.int (negsuc 6))
        (Obj.int (pos 2))
        []
        (pyir_floor_div whole 3 4 ints_state)
    × SettlesNumbers whole "**"
        (λ i j. some (pos (pos_part i * pos_part j)))
        (λ x y. x * y)
        (Obj.int (negsuc 6))
        (Obj.int (pos 2))
        []
        (pyir_exp whole 3 4 ints_state)
    × SettlesNumbers whole "%" int_remainder
        (λ x y. x % y)
        (Obj.int (negsuc 6))
        (Obj.int (pos 2))
        []
        (pyir_mod whole 3 4 ints_state)
arithmetic-IsBalanced_example =
    arithmetic-IsBalanced whole ints_state 3 4 minus_seven two [] refl refl (omega arith)
      ints_heap-IsBalanced

comparison-IsBalanced_example :
    SettlesTotal whole "/"
      (λ i j. Answer.float (pos_part i / pos_part j))
      (λ x y. Answer.float (x / y))
      (Obj.int (negsuc 6))
      (Obj.int (pos 2))
      []
      (pyir_div whole 3 4 ints_state)
    × SettlesOrder whole "<" ltb_ℤ ltb
        (Obj.int (negsuc 6))
        (Obj.int (pos 2))
        []
        (pyir_lt whole 3 4 ints_state)
    × SettlesOrder whole "<=" leb_ℤ leb
        (Obj.int (negsuc 6))
        (Obj.int (pos 2))
        []
        (pyir_le whole 3 4 ints_state)
    × SettlesOrder whole "<" ltb_ℤ ltb
        (Obj.int (pos 2))
        (Obj.int (negsuc 6))
        []
        (pyir_gt whole 3 4 ints_state)
    × SettlesOrder whole "<=" leb_ℤ leb
        (Obj.int (pos 2))
        (Obj.int (negsuc 6))
        []
        (pyir_ge whole 3 4 ints_state)
comparison-IsBalanced_example =
    comparison-IsBalanced whole ints_state 3 4 minus_seven two [] refl refl (omega arith)
      ints_heap-IsBalanced

unary-IsBalanced_example :
    Settles
      (NegationFault (Obj.int (negsuc 6)))
      true
      (bad_operand "-" "int")
      (4 ∷ [])
      (pyir_unary_negative whole 3 ints_state)
    × Settles ⊥ false (bad_operand "not" "int") (4 ∷ []) (pyir_unary_not 3 ints_state)
    × Settles ⊥ true (bad_operand "~" "int") (4 ∷ []) (pyir_unary_invert 3 ints_state)
unfolding type_name
unary-IsBalanced_example =
    unary-IsBalanced whole ints_state 3 minus_seven (4 ∷ []) refl (omega arith) ints_heap-IsBalanced

int_quotient-IsDivision_example :
    IsDivision
      (negsuc 6)
      (pos 2)
      (int_quotient (negsuc 6) (pos 2))
      (int_remainder (negsuc 6) (pos 2))
int_quotient-IsDivision_example = int_quotient-IsDivision (negsuc 6) (pos 2)

-- -7 // 2 is -3 here, and -7 % 2 is -1; Python's are -4 and 1.
minus_seven_by_two :
    (int_quotient (negsuc 6) (pos 2) ≡ some (negsuc 2))
    × (int_remainder (negsuc 6) (pos 2) ≡ some (negsuc 0))
unfolding int_quotient int_remainder
minus_seven_by_two = (refl, refl)

-- The lists `[s]` and `[s, s]`.
abbrev lists_heap : Heap
lists_heap =
    some (record { refs = 1; obj = Obj.none_obj })
    ∷ some (record { refs = 1; obj = Obj.bool true })
    ∷ some (record { refs = 1; obj = Obj.bool false })
    ∷ some (record { refs = 1; obj = Obj.list (5 ∷ []) })
    ∷ some (record { refs = 1; obj = Obj.list (5 ∷ 5 ∷ []) })
    ∷ some (record { refs = 3; obj = Obj.str [] })
    ∷ []

lists_heap-HasRoom : HasRoom 4 lists_heap
lists_heap-HasRoom zero = omega arith
lists_heap-HasRoom (suc zero) = omega arith
lists_heap-HasRoom (suc (suc zero)) = omega arith
lists_heap-HasRoom (suc (suc (suc zero))) = omega arith
lists_heap-HasRoom (suc (suc (suc (suc zero)))) = omega arith
lists_heap-HasRoom (suc (suc (suc (suc (suc zero))))) = omega arith
lists_heap-HasRoom (suc (suc (suc (suc (suc (suc a)))))) = tt

lists_heap-IsBalanced : IsBalanced lists_heap (3 ∷ 4 ∷ [])
unfolding children
lists_heap-IsBalanced zero h = absurd (omega arith)
lists_heap-IsBalanced (suc zero) h = absurd (omega arith)
lists_heap-IsBalanced (suc (suc zero)) h = absurd (omega arith)
lists_heap-IsBalanced (suc (suc (suc zero))) h = (refl, omega arith, omega arith)
lists_heap-IsBalanced (suc (suc (suc (suc zero)))) h = (refl, omega arith, omega arith)
lists_heap-IsBalanced (suc (suc (suc (suc (suc zero))))) h = (refl, omega arith, omega arith)
lists_heap-IsBalanced (suc (suc (suc (suc (suc (suc a)))))) h = ground arith

abbrev one_item : Cell
one_item = record { refs = 1; obj = Obj.list (5 ∷ []) }

abbrev two_items : Cell
two_items = record { refs = 1; obj = Obj.list (5 ∷ 5 ∷ []) }

list_extend-Extended_example :
    Returns
      (λ _. Extended 2 3 (5 ∷ 5 ∷ 5 ∷ []) (3 ∷ 4 ∷ []) lists_heap)
      (list_extend 3 (4 ∷ []) (module_state lists_heap [] []))
list_extend-Extended_example =
    list_extend-Extended 2 3 4 (5 ∷ []) (5 ∷ 5 ∷ []) (3 ∷ 4 ∷ []) (module_state lists_heap [] [])
      one_item two_items (omega arith) refl refl refl refl refl lists_heap-HasRoom
      lists_heap-IsBalanced

pyir_add-IsBalanced_example :
    Settles ⊥ true
      (unsupported_operands "+" "list" "list")
      []
      (pyir_add whole 3 4 (module_state lists_heap [] []))
unfolding type_name
pyir_add-IsBalanced_example =
    pyir_add-IsBalanced whole (module_state lists_heap [] []) 3 4 one_item two_items [] refl refl tt
      (omega arith) lists_heap-HasRoom lists_heap-IsBalanced

-- The tuples `(s,)` and `()`: their sum holds the string, which is freed with the first of them.
abbrev tuples_heap : Heap
tuples_heap =
    some (record { refs = 1; obj = Obj.none_obj })
    ∷ some (record { refs = 1; obj = Obj.bool true })
    ∷ some (record { refs = 1; obj = Obj.bool false })
    ∷ some (record { refs = 1; obj = Obj.tuple (5 ∷ []) })
    ∷ some (record { refs = 1; obj = Obj.tuple [] })
    ∷ some (record { refs = 1; obj = Obj.str [] })
    ∷ []

tuple_sum_dangles :
    Returns
      (λ a t.
        (cell_at t.heap a ≡ some (record { refs = 1; obj = Obj.tuple (5 ∷ []) }))
        × (cell_at t.heap 5 ≡ none))
      (pyir_add whole 3 4 (module_state tuples_heap [] []))
unfolding pyir_add children
tuple_sum_dangles = (refl, refl)
