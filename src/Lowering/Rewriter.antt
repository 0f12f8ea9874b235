-- ===== src/Lowering/Rewriter.antt =====
-- pycompile/src/lowering/pyir_conversion_utils.cpp: the LLVM dialect as far as the patterns build it,
-- the module's symbols, and the rewriter.
use text.Mathlib.Text.{◌==◌ as str_eq}
use pycompile.Base.{
  ℕ, suc, Bool, List, [], ◌∷◌, ◌++◌, Option, none, some, String, map, if◌then◌else◌,
}
use pycompile.Base.Int.{ℤ}
use pycompile.Pyir.{Value, Successor}

-- `ptrType`, `i64Type`, `boolType` and `i8Type`, `f64Type`, and the type of no result.
pub data LlvmType : Type 0 where
  ptr i8 i64 f64 void : LlvmType

pub record FnType : Type 0 where
  pub returns : LlvmType
  pub takes : List LlvmType

-- The operations that the patterns create. `call` names its function; an `alloca` is of an array of
-- pointers, by its length; `trunc` is to one bit.
pub data LlvmOp : Type 0 where
  const_i8 : ℕ → LlvmOp
  const_i64 : ℤ → LlvmOp
  const_f64 : ℕ → LlvmOp
  address_of : String → LlvmOp
  alloca : ℕ → Value → LlvmOp
  gep : Value → Value → LlvmOp
  store : Value → Value → LlvmOp
  load : Value → LlvmOp
  zero_ptr : LlvmOp
  trunc : Value → LlvmOp
  icmp_ne : Value → Value → LlvmOp
  call : String → List Value → LlvmOp
  cond_br : Value → Successor → Successor → LlvmOp
  return_op : Value → LlvmOp

pub record Instr : Type 0 where
  pub op : LlvmOp
  pub result : Option Value

-- What a name of the module stands for: a declared function, a string constant (its initialiser ends
-- with a NUL), or an operation of another kind.
pub data Symbol : Type 0 where
  declared : FnType → Symbol
  string_constant : String → Symbol
  other : Symbol

abbrev pub Symbols : Type 0
Symbols = List (String × Symbol)

-- `module.lookupSymbol(name)`
unfoldable pub lookup : String → Symbols → Option Symbol
lookup name [] = none
lookup name ((n, s) ∷ rest) = if str_eq n name then some s else lookup name rest

-- `ConversionPatternRewriter` at the operation that is rewritten: the instructions before it.
pub record Rewriter : Type 0 where
  pub symbols : Symbols
  pub emitted : List Instr
  pub next_value : ℕ

-- A pattern fails, or is undefined: it reads an operand that is not there, or asks for the class of a
-- null attribute.
pub data Built (A : Type 0) : Type 0 where
  built : A → Rewriter → Built A
  failure : Built A
  undefined : Built A

abbrev pub Build : Type 0 → Type 0
Build A = Rewriter → Built A

abbrev pub and_then : {A B : Type 0} → Built A → (A → Build B) → Built B
and_then (built a r) f = f a r
and_then failure f = failure
and_then undefined f = undefined

infixl 5 ◌>>=◌ ◌>>◌
abbrev pub ◌>>=◌ : {A B : Type 0} → Build A → (A → Build B) → Build B
◌>>=◌ m f r = and_then (m r) f

abbrev pub ◌>>◌ : {B : Type 0} → Build (Unit {0}) → Build B → Build B
m >> k = m >>= λ _. k

abbrev pub pure : {A : Type 0} → A → Build A
pure a r = built a r

-- `XOp::create(rewriter, ...)`, of an operation with a result and of one without.
unfoldable pub create : LlvmOp → Build Value
create op r = built r.next_value (record r {
  emitted = r.emitted ++ (record { op = op; result = some r.next_value } ∷ []);
  next_value = suc r.next_value;
})

unfoldable pub create_void : LlvmOp → Build (Unit {0})
create_void op r =
    built tt (record r { emitted = r.emitted ++ (record { op = op; result = none } ∷ []) })

-- A new symbol is put at the start of the module.
abbrev pub add_symbol : String → Symbol → Build (Unit {0})
add_symbol name s r = built tt (record r { symbols = (name, s) ∷ r.symbols })

abbrev declare : String → FnType → Option Symbol → Build (Unit {0})
declare name type (some (declared found)) = pure tt
declare name type _ = add_symbol name (declared type)

unfoldable pub get_or_insert_runtime_fn : String → FnType → Build (Unit {0})
unfolding lookup
get_or_insert_runtime_fn name type r = declare name type (lookup name r.symbols) r

abbrev define : String → String → Option Symbol → Build (Unit {0})
define name text (some found) = pure tt
define name text none = add_symbol name (string_constant text)

-- A name that the module has already keeps what it stands for.
unfoldable pub get_or_insert_string_constant : String → String → Build Value
unfolding create lookup
get_or_insert_string_constant name text = do
  (λ r. define name text (lookup name r.symbols) r)
  create (LlvmOp.address_of name)

-- The operation is replaced by a value, or erased; a terminator is replaced by another.
pub data Rewritten : Type 0 where
  replaced : Value → Rewritten
  erased : Rewritten

abbrev pub call_fn : Bool → String → List Value → Build Rewritten
call_fn has_return fn args =
    if has_return
    then (do v ← create (LlvmOp.call fn args); pure (replaced v))
    else (do create_void (LlvmOp.call fn args); pure erased)

abbrev pub return_type : Bool → LlvmType
return_type has_return = if has_return then LlvmType.ptr else LlvmType.void

-- The operands become the arguments of the runtime function.
unfoldable pub insert_runtime_func : String → Bool → List Value → Build Rewritten
unfolding get_or_insert_runtime_fn create create_void
insert_runtime_func func has_return operands = do
  get_or_insert_runtime_fn func
      (record { returns = return_type has_return; takes = map (λ _. LlvmType.ptr) operands })
  call_fn has_return func operands
