-- ===== src/Lowering/Meaning.antt =====
-- What each operation should call: the runtime function, by pycompile/src/lowering's name, and the
-- arguments.
use text.Mathlib.Text.{◌==◌ as str_eq}
use Prim.Native.String.{◌++◌ as str_append}
use pycompile.Base.{
  Bool, true, false, ◌++◌, ℕ, List, [], ◌∷◌, Option, none, some, String, length, map, if◌then◌else◌,
}
use pycompile.Base.Int.{pos}
use pycompile.Pyir.{Value, Scalar, Attr, OpName}
use pycompile.Lowering.Rewriter.{Symbols, Built, Rewritten}
use pycompile.Lowering.Constants.{name_symbol, constant_symbol, Hash}
use pycompile.Lowering.Machine.{Word, Arg, Machine, Runtime}
use pycompile.Lowering.Stores.{Agrees}
use pycompile.Lowering.Calls.{Makes}
use pycompile.Lowering.Passed.{passed}

-- A call of a runtime function, and whether its result is that of the operation.
abbrev pub Call : Type 0 → Type 0
Call V = Option (Bool × String × List (Arg V))

-- A table of operators.
abbrev pub listed : String → List (String × String) → Option String
listed op [] = none
listed op ((k, fn) ∷ rest) = if str_eq k op then some fn else listed op rest

-- The operators that also have an assignment, which calls the same function.
abbrev assigning : List (String × String)
assigning =
    ("+", "pyir_add")
    ∷ ("-", "pyir_sub")
    ∷ ("*", "pyir_mul")
    ∷ ("/", "pyir_div")
    ∷ ("^", "pyir_xor")
    ∷ ("//", "pyir_floorDiv")
    ∷ ("**", "pyir_exp")
    ∷ ("%", "pyir_mod")
    ∷ ("|", "pyir_pipe")
    ∷ ("&", "pyir_ampersand")
    ∷ []

abbrev spelled : (String → String) → List (String × String) → List (String × String)
spelled f [] = []
spelled f ((k, fn) ∷ rest) = (f k, fn) ∷ spelled f rest

-- A subscript, an operator or an assignment.
abbrev pub binary_calls : List (String × String)
binary_calls = ("[]", "pyir_idx") ∷ (assigning ++ spelled (λ op. str_append op "=") assigning)

abbrev comparisons : List (String × String)
comparisons =
    ("==", "pyir_eq")
    ∷ ("!=", "pyir_ne")
    ∷ ("<", "pyir_lt")
    ∷ ("<=", "pyir_le")
    ∷ (">", "pyir_gt")
    ∷ (">=", "pyir_ge")
    ∷ []

-- A comparison, or one of which the truth is asked for.
abbrev pub compare_calls : List (String × String)
compare_calls = comparisons ++ spelled (λ op. str_append "bool(" (str_append op ")")) comparisons

abbrev pub contains_calls : List (String × String)
contains_calls = ("in", "pyir_in") ∷ []

module _ {V : Type 0} where
  abbrev pub operator_call : Option String → List (Arg V) → Call V
  operator_call none args = none
  operator_call (some fn) args = some (true, fn, args)

  abbrev pub constant_call : Attr → Call V
  constant_call (Attr.scalar (Scalar.str text)) =
      some (true, "pyir_loadConstStr", Arg.text text ∷ [])
  constant_call (Attr.scalar (Scalar.bool b)) =
      some (true, "pyir_loadConstBool", Arg.value (Word.byte (if b then 1 else 0)) ∷ [])
  constant_call (Attr.scalar (Scalar.int i)) =
      some (true, "pyir_loadConstInt", Arg.value (Word.int i) ∷ [])
  constant_call (Attr.scalar (Scalar.float d)) =
      some (true, "pyir_loadConstFloat", Arg.value (Word.float d) ∷ [])
  constant_call Attr.none = some (true, "pyir_loadConstNone", [])
  constant_call _ = none

  abbrev array_call : String → (Value → Word V) → List Value → Call V
  array_call fn env vs =
      some
        (true, fn, Arg.items (map some (map env vs)) ∷ Arg.value (Word.int (pos (length vs))) ∷ [])

  abbrev direct : Bool → String → (Value → Word V) → List Value → Call V
  direct has_return fn env vs = some (has_return, fn, map (λ v. Arg.value (env v)) vs)

  -- The call that an operation is for. `none` is an operation that is no single call of a runtime
  -- function with its operands, or that has no pattern.
  unfoldable pub meaning : OpName → (Value → Word V) → List Value → Call V
  meaning (OpName.load_fast name) env vs = some (true, "pyir_loadFast", Arg.text name ∷ [])
  meaning (OpName.load_fast_and_clear name) env vs =
      some (true, "pyir_loadFastAndClear", Arg.text name ∷ [])
  meaning (OpName.load_name name) env vs = some (true, "pyir_loadName", Arg.text name ∷ [])
  meaning (OpName.store_fast name) env (v ∷ []) =
      some (false, "pyir_storeFast", Arg.text name ∷ Arg.value (env v) ∷ [])
  meaning (OpName.store_name name) env (v ∷ []) =
      some (false, "pyir_storeName", Arg.text name ∷ Arg.value (env v) ∷ [])
  meaning (OpName.load_const value) env vs = constant_call value
  meaning (OpName.load_attr name) env (v ∷ []) =
      some (true, "pyir_loadAttr", Arg.value (env v) ∷ Arg.text name ∷ [])
  meaning OpName.store_subscr env (c ∷ i ∷ v ∷ []) =
      direct false "pyir_storeSubscr" env (c ∷ i ∷ v ∷ [])
  meaning OpName.call env (callee ∷ vs) = some (
    true,
    "pyir_call",
    Arg.value (env callee) ∷ passed env vs ∷ Arg.value (Word.int (pos (length vs))) ∷ [],
  )
  meaning (OpName.binary_op op) env vs =
      operator_call (listed op binary_calls) (map (λ v. Arg.value (env v)) vs)
  meaning (OpName.compare_op op) env vs =
      operator_call (listed op compare_calls) (map (λ v. Arg.value (env v)) vs)
  meaning (OpName.contains_op op) env vs =
      operator_call (listed op contains_calls) (map (λ v. Arg.value (env v)) vs)
  meaning OpName.destroy_module env vs = direct false "pyir_destroyModule" env vs
  meaning OpName.push_scope env vs = direct false "pyir_pushScope" env vs
  meaning OpName.pop_scope env vs = direct false "pyir_popScope" env vs
  meaning OpName.to_bool env vs = direct true "pyir_toBool" env vs
  meaning OpName.unary_invert env vs = direct true "pyir_unaryInvert" env vs
  meaning OpName.unary_negative env vs = direct true "pyir_unaryNegative" env vs
  meaning OpName.unary_not env vs = direct true "pyir_unaryNot" env vs
  meaning OpName.format_simple env vs = direct true "pyir_formatSimple" env vs
  meaning OpName.build_string env vs = array_call "pyir_buildString" env vs
  meaning OpName.build_list env vs = array_call "pyir_buildList" env vs
  meaning OpName.build_set env vs = array_call "pyir_buildSet" env vs
  meaning OpName.build_map env vs = array_call "pyir_buildMap" env vs
  meaning OpName.list_extend env vs = direct false "pyir_listExtend" env vs
  meaning OpName.list_append env vs = direct false "pyir_listAppend" env vs
  meaning OpName.set_update env vs = direct false "pyir_setUpdate" env vs
  meaning OpName.set_add env vs = direct false "pyir_setAdd" env vs
  meaning OpName.map_add env vs = direct false "pyir_mapAdd" env vs
  meaning OpName.get_iter env vs = direct true "pyir_getIter" env vs
  meaning OpName.pop_iter env vs = direct false "pyir_popIter" env vs
  meaning _ env vs = none

-- The names that an operation passes stand for themselves in the module's symbols, or are free.
abbrev pub IsNamed : Hash → Symbols → OpName → Type 0
IsNamed hash table (OpName.load_fast name) = Agrees table (name_symbol name) name
IsNamed hash table (OpName.load_fast_and_clear name) = Agrees table (name_symbol name) name
IsNamed hash table (OpName.load_name name) = Agrees table (name_symbol name) name
IsNamed hash table (OpName.store_fast name) = Agrees table (name_symbol name) name
IsNamed hash table (OpName.store_name name) = Agrees table (name_symbol name) name
IsNamed hash table (OpName.load_attr name) = Agrees table (name_symbol name) name
IsNamed hash table (OpName.load_const (Attr.scalar (Scalar.str text))) =
    Agrees table (constant_symbol hash text) text
IsNamed hash table _ = Unit

-- The outcome of a pattern for an operation with that call; one without is not constrained.
abbrev pub MakesCall :
    {V S : Type 0} → Runtime V S → Call V → ℕ → Machine V S → Built Rewritten → Type 0
MakesCall rt none n m r = Unit
MakesCall rt (some (has_return, fn, args)) n m r = Makes rt has_return fn args n m r
