-- ===== src/Pyir.antt =====
-- pycompile/src/pyir/pyir.td and the parts of MLIR that the code generator builds: operations in
-- blocks in functions. An SSA value is a number, and an operation is its name with its attributes,
-- its operands, its successors with their block arguments, and its result.
use pycompile.Base.{ℕ, Bool, List, Option, String, true, false, [], ◌∷◌}
use pycompile.Base.Int.{ℤ}

abbrev pub Value : Type 0
Value = ℕ

-- The attributes that LOAD_CONST makes. `null` is the default-constructed `NoneAttr{}`.
pub data Scalar : Type 0 where
  null : Scalar
  str : String → Scalar
  int : ℤ → Scalar
  float : ℕ → Scalar
  bool : Bool → Scalar

pub data Attr : Type 0 where
  none : Attr
  scalar : Scalar → Attr
  array : List Scalar → Attr

pub data OpName : Type 0 where
  init_module : String → String → OpName
  destroy_module push_null call to_bool is_truthy unary_not unary_negative unary_invert : OpName
  load_name store_name load_fast load_fast_and_clear store_fast load_deref store_deref :
      String → OpName
  load_attr make_function binary_op compare_op contains_op : String → OpName
  load_const : Attr → OpName
  load_arg : ℕ → OpName
  push_scope pop_scope return_value store_subscr format_simple : OpName
  build_string build_list list_extend list_append build_set set_update set_add : OpName
  build_map map_add get_iter for_iter pop_iter : OpName
  br cond_br func_return : OpName

-- The trait `IsTerminator`.
unfoldable pub is_terminator : OpName → Bool
is_terminator return_value = true
is_terminator for_iter = true
is_terminator br = true
is_terminator cond_br = true
is_terminator func_return = true
is_terminator _ = false

pub record Successor : Type 0 where
  pub block : ℕ
  pub args : List Value

pub record Op : Type 0 where
  pub name : OpName
  pub operands : List Value
  pub successors : List Successor
  pub result : Option Value

pub record Block : Type 0 where
  pub args : List Value
  pub ops : List Op

pub record Func : Type 0 where
  pub name : String
  pub params : List Value
  pub blocks : List Block

-- `mightHaveTerminator` of a block: its last operation is a terminator.
unfoldable pub ends_terminated : List Op → Bool
unfolding is_terminator
ends_terminated [] = false
ends_terminated (op ∷ []) = is_terminator op.name
ends_terminated (_ ∷ ops) = ends_terminated ops
