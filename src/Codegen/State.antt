-- ===== src/Codegen/State.antt =====
-- pycompile/src/conversion/pyir_codegen.hpp: `ConversionMeta`, with the state of `mlir::OpBuilder`
-- and of the functions built so far, and the monad that the code generators run in.
-- A `std::vector` used as a stack is a list, last pushed first.
use pycompile.Base.{
  ℕ, zero, suc, ◌+◌, Bool, List, [], ◌∷◌, ◌++◌, Option, none, some, String, length, get_elem?, set,
  take, drop,
}
use mathlib.Core.List.{reverse}
use pycompile.Base.Int.{ℤ, pos, negsuc}
use pycompile.Bytecode.{Argval}
use pycompile.Pyir.{Value, OpName, Successor, Op, Block, Func}

-- What a code generator throws. `undefined` stands for undefined behaviour: `back()` or
-- `pop_back()` of an empty vector.
pub data Error : Type 0 where
  compile_error runtime_error : String → Error
  out_of_range length_error bad_variant undefined : Error

pub record State : Type 0 where
  pub stack : List Value
  pub offset_to_block : List (ℕ × ℕ)
  pub pending_functions : List (Value × String)
  pub is_function : Bool
  -- The function being built, and the insertion point of the builder.
  pub fn : ℕ
  pub at_fn : ℕ
  pub at_block : ℕ
  pub at_pos : ℕ
  -- The module's functions, the next SSA value and the global `fnCounter`.
  pub funcs : List Func
  pub next_value : ℕ
  pub fn_counter : ℕ

pub data Result (A : Type 0) : Type 0 where
  ok : A → State → Result A
  err : Error → Result A

abbrev pub Gen : Type 0 → Type 0
Gen A = State → Result A

abbrev pub and_then : {A B : Type 0} → Result A → (A → Gen B) → Result B
and_then (ok a s) f = f a s
and_then (err e) f = err e

infixl 5 ◌>>=◌ ◌>>◌
abbrev pub ◌>>=◌ : {A B : Type 0} → Gen A → (A → Gen B) → Gen B
◌>>=◌ m f s = and_then (m s) f

abbrev pub ◌>>◌ : {B : Type 0} → Gen (Unit {0}) → Gen B → Gen B
m >> k = m >>= λ _. k

abbrev pub pure : {A : Type 0} → A → Gen A
pure a s = ok a s

abbrev pub throw : {A : Type 0} → Error → Gen A
throw e s = err e

abbrev pub get : Gen State
get s = ok s s

abbrev pub modify : (State → State) → Gen (Unit {0})
modify f s = ok tt (f s)

-- `meta.stack.push_back(v)`
unfoldable pub push : Value → Gen (Unit {0})
push v s = ok tt (record s { stack = v ∷ s.stack })

-- `meta.stack.back()` followed by `meta.stack.pop_back()`
unfoldable pub pop : Gen Value
pop s = elim s.stack [ [] ↦ err undefined | v ∷ vs ↦ ok v (record s { stack = vs }) ]

-- `meta.stack.back()`
unfoldable pub top : Gen Value
top s = elim s.stack [ [] ↦ err undefined | v ∷ vs ↦ ok v s ]

-- `meta.stack.at(meta.stack.size() - idx)`: the difference wraps around as a size_t, so an index
-- below 1 or above the size is out of range.
unfoldable pub stack_at : ℤ → Gen Value
stack_at (pos (suc i)) s = elim (get_elem? s.stack i) [ none ↦ err out_of_range | some v ↦ ok v s ]
stack_at _ s = err out_of_range

-- `for (int64_t i = n - 1; i >= 0; i--) { parts[i] = stack.back(); stack.pop_back(); }`, with the
-- parts from `i + 1` on in `parts`.
unfoldable pub pop_loop : ℕ → List Value → Gen (List Value)
unfolding pop
pop_loop zero parts = pure parts
pop_loop (suc n) parts = do v ← pop; pop_loop n (v ∷ parts)

-- `std::vector<mlir::Value> parts(count)` and the loop that fills it from the back.
unfoldable pub pop_parts : ℤ → Gen (List Value)
unfolding pop_loop
pop_parts (pos n) = pop_loop n []
pop_parts (negsuc n) = throw length_error

-- `std::get_if<int64_t>` and `std::get_if<std::string>`, with the error of the missing case.
unfoldable pub want_int : Error → Argval → Gen ℤ
want_int e (Argval.int i) = pure i
want_int e _ = throw e

unfoldable pub want_str : Error → Argval → Gen String
want_str e (Argval.str t) = pure t
want_str e _ = throw e

-- Insertion of an operation at a position of a block of a function.
unfoldable pub insert_op : Op → ℕ → Block → Block
insert_op op p b = record b { ops = take p b.ops ++ (op ∷ drop p b.ops) }

unfoldable pub on_block : (Block → Block) → ℕ → Func → Func
on_block f i fn = record fn {
  blocks = elim (get_elem? fn.blocks i) [ none ↦ fn.blocks | some b ↦ set fn.blocks i (f b) ];
}

unfoldable pub on_func : (Func → Func) → ℕ → List Func → List Func
on_func f i fns = elim (get_elem? fns i) [ none ↦ fns | some fn ↦ set fns i (f fn) ]

unfoldable pub insert : Op → Gen (Unit {0})
unfolding insert_op on_block on_func
insert op s = ok tt (record s {
  funcs = on_func (on_block (insert_op op s.at_pos) s.at_block) s.at_fn s.funcs;
  at_pos = s.at_pos + 1;
})

-- A new SSA value.
unfoldable pub fresh : Gen Value
fresh s = ok s.next_value (record s { next_value = s.next_value + 1 })

-- `X::create(builder, loc, pyType, operands...).getResult()`
unfoldable pub create : OpName → List Value → Gen Value
unfolding insert fresh
create name operands = do
  v ← fresh
  insert (record { name = name; operands = operands; successors = []; result = some v })
  pure v

-- `X::create(builder, loc, operands...)` of an operation without a result.
unfoldable pub create_void : OpName → List Value → Gen (Unit {0})
unfolding insert
create_void name operands =
    insert (record { name = name; operands = operands; successors = []; result = none })

-- The same of a terminator with successors.
unfoldable pub create_branch : OpName → List Value → List Successor → Gen (Unit {0})
unfolding insert
create_branch name operands successors =
    insert (record { name = name; operands = operands; successors = successors; result = none })

-- The operations of a block.
unfoldable pub block_of : ℕ → ℕ → List Func → Option Block
block_of f b fns = elim (get_elem? fns f) [ none ↦ none | some fn ↦ get_elem? fn.blocks b ]

-- `fn.addBlock()`: the new block's index, behind the function's other blocks.
unfoldable pub add_block : Gen ℕ
unfolding on_func
add_block s = elim (get_elem? s.funcs s.fn) [
  | none ↦ err undefined
  | some fn ↦ ok (length fn.blocks) (record s {
    funcs =
        set s.funcs s.fn
          (record fn { blocks = fn.blocks ++ (record { args = []; ops = [] } ∷ []) });
  })
]

-- `block->addArgument(type, loc)`
unfoldable pub add_argument : ℕ → Gen Value
unfolding fresh on_block on_func
add_argument b = do
  v ← fresh
  modify (λ s. record s {
    funcs =
        on_func (on_block (λ (blk : Block). record blk { args = blk.args ++ (v ∷ []) }) b) s.fn
          s.funcs;
  })
  pure v

-- `block->getArguments()`
unfoldable pub arguments : ℕ → Gen (List Value)
unfolding block_of
arguments b s = elim (block_of s.fn b s.funcs) [ none ↦ err undefined | some blk ↦ ok blk.args s ]

-- `for (mlir::Value v : values) block->addArgument(v.getType(), loc);`
unfoldable pub add_arguments : List Value → ℕ → Gen (Unit {0})
unfolding add_argument
add_arguments [] b = pure tt
add_arguments (_ ∷ values) b = do _ ← add_argument b; add_arguments values b

-- `if (block->getNumArguments() == 0)` with that loop.
unfoldable pub ensure_arguments : ℕ → List Value → Gen (Unit {0})
unfolding arguments add_arguments
ensure_arguments b values = do
  given ← arguments b
  elim given [ [] ↦ add_arguments values b | _ ∷ _ ↦ pure tt ]

-- `builder.setInsertionPointToStart(block)`
unfoldable pub set_insertion_start : ℕ → Gen (Unit {0})
set_insertion_start b = modify (λ s. record s { at_fn = s.fn; at_block = b; at_pos = 0 })

-- The values of the stack in the order of the vector, the last pushed last.
unfoldable pub stack_values : Gen (List Value)
stack_values s = ok (reverse s.stack) s
