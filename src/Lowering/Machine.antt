-- ===== src/Lowering/Machine.antt =====
-- A machine for the LLVM operations that pycompile/src/lowering emits. The functions that the code
-- calls are a parameter: what a function of a name does with what its arguments lead to.
use pycompile.Base.{
  ℕ, suc, Bool, true, false, List, [], ◌∷◌, ◌++◌, Option, none, some, String, length, get_elem?,
  set, map, ◌==◌, if◌then◌else◌,
}
use pycompile.Base.Int.{ℤ, pos}
use pycompile.Pyir.{Value}
use pycompile.Lowering.Rewriter.{LlvmOp, Instr, Symbol, Symbols, lookup}

-- What an SSA value holds: an object, a number, or a pointer to a symbol, an array or an element.
pub data Word (V : Type 0) : Type 0 where
  object : V → Word V
  null : Word V
  byte : ℕ → Word V
  int : ℤ → Word V
  float : ℕ → Word V
  bit : Bool → Word V
  symbol : String → Word V
  array : ℕ → Word V
  element : ℕ → ℕ → Word V

-- The elements of an array; one that was not written is `none`.
abbrev pub Cells : Type 0 → Type 0
Cells V = List (Option (Word V))

-- What a called function is given: pointers are followed.
pub data Arg (V : Type 0) : Type 0 where
  value : Word V → Arg V
  text : String → Arg V
  code : String → Arg V
  items : Cells V → Arg V

pub record Machine (V S : Type 0) : Type 0 where
  pub env : Value → Word V
  pub memory : List (Cells V)
  pub world : S

-- Straight-line code runs on, a terminator leaves it, and wrong operands stop it.
pub data Flow (V S : Type 0) : Type 0 where
  running : Machine V S → Flow V S
  branched : ℕ → List (Word V) → Machine V S → Flow V S
  returned : Word V → Machine V S → Flow V S
  stuck : Flow V S

-- The called functions: the result, null for none, and the next state of the world.
abbrev pub Runtime : Type 0 → Type 0 → Type 0
Runtime V S = String → List (Arg V) → S → Word V × S

abbrev is_odd : ℕ → Bool
is_odd ℕ.zero = false
is_odd (suc ℕ.zero) = true
is_odd (suc (suc n)) = is_odd n

module _ {V : Type 0} where
  abbrev pub update : (Value → Word V) → Value → Word V → Value → Word V
  update env n w v = if v == n then w else env v

  abbrev view_symbol : String → Option Symbol → Arg V
  view_symbol name (some (Symbol.string_constant contents)) = Arg.text contents
  view_symbol name _ = Arg.code name

  abbrev view_array : ℕ → Option (Cells V) → Arg V
  view_array a none = Arg.value (Word.array a)
  view_array a (some cells) = Arg.items cells

  abbrev pub view : Symbols → List (Cells V) → Word V → Arg V
  view table memory (Word.symbol name) = view_symbol name (lookup name table)
  view table memory (Word.array a) = view_array a (get_elem? memory a)
  view table memory w = Arg.value w

  abbrev pub cells_at : List (Cells V) → ℕ → Cells V
  cells_at [] a = []
  cells_at (cells ∷ memory) ℕ.zero = cells
  cells_at (cells ∷ memory) (suc a) = cells_at memory a

  abbrev pub empty_cells : ℕ → Cells V
  empty_cells ℕ.zero = []
  empty_cells (suc n) = none ∷ empty_cells n

  abbrev gep_of : Word V → Word V → Option (Word V)
  gep_of (Word.array a) (Word.int (pos i)) = some (Word.element a i)
  gep_of _ _ = none

  abbrev flat : Option (Option (Word V)) → Option (Word V)
  flat none = none
  flat (some o) = o

  abbrev load_of : Word V → List (Cells V) → Option (Word V)
  load_of (Word.element a i) memory = flat (get_elem? (cells_at memory a) i)
  load_of _ memory = none

  abbrev trunc_of : Word V → Option (Word V)
  trunc_of (Word.byte n) = some (Word.bit (is_odd n))
  trunc_of _ = none

  -- Pointers are compared with the null pointer only.
  abbrev ne_of : Word V → Word V → Option (Word V)
  ne_of Word.null Word.null = some (Word.bit false)
  ne_of (Word.object v) Word.null = some (Word.bit true)
  ne_of _ _ = none

module _ {V S : Type 0} where
  -- The result of an instruction is bound to its value.
  abbrev bind : Option Value → Word V → Machine V S → Flow V S
  bind none w m = Flow.running m
  bind (some n) w m = Flow.running (record m { env = update m.env n w })

  abbrev bind_some : Option Value → Option (Word V) → Machine V S → Flow V S
  bind_some n none m = Flow.stuck
  bind_some n (some w) m = bind n w m

  abbrev store_to : Word V → Word V → Machine V S → Flow V S
  store_to w (Word.element a i) m =
      Flow.running (record m { memory = set m.memory a (set (cells_at m.memory a) i (some w)) })
  store_to w _ m = Flow.stuck

  abbrev branch : Word V → ℕ × List Value → ℕ × List Value → Machine V S → Flow V S
  branch (Word.bit true) (block, args) other m = Flow.branched block (map m.env args) m
  branch (Word.bit false) other (block, args) m = Flow.branched block (map m.env args) m
  branch _ _ _ m = Flow.stuck

  abbrev call_of : Option Value → Word V × S → Machine V S → Flow V S
  call_of n (w, t) m = bind n w (record m { world = t })

  abbrev pub then_run : Flow V S → (Machine V S → Flow V S) → Flow V S
  then_run (Flow.running m) k = k m
  then_run other k = other

  module _ (rt : Runtime V S) (table : Symbols) where
    abbrev pub args_of : Machine V S → List Value → List (Arg V)
    args_of m vs = map (λ v. view table m.memory (m.env v)) vs

    abbrev step_op : LlvmOp → Option Value → Machine V S → Flow V S
    step_op (LlvmOp.const_i8 n) r m = bind r (Word.byte n) m
    step_op (LlvmOp.const_i64 i) r m = bind r (Word.int i) m
    step_op (LlvmOp.const_f64 d) r m = bind r (Word.float d) m
    step_op (LlvmOp.address_of name) r m = bind r (Word.symbol name) m
    step_op (LlvmOp.alloca n size) r m =
        bind r (Word.array (length m.memory))
          (record m { memory = m.memory ++ (empty_cells n ∷ []) })
    step_op (LlvmOp.gep p i) r m = bind_some r (gep_of (m.env p) (m.env i)) m
    step_op (LlvmOp.store v p) r m = store_to (m.env v) (m.env p) m
    step_op (LlvmOp.load p) r m = bind_some r (load_of (m.env p) m.memory) m
    step_op LlvmOp.zero_ptr r m = bind r Word.null m
    step_op (LlvmOp.trunc v) r m = bind_some r (trunc_of (m.env v)) m
    step_op (LlvmOp.icmp_ne a b) r m = bind_some r (ne_of (m.env a) (m.env b)) m
    step_op (LlvmOp.call fn args) r m = call_of r (rt fn (args_of m args) m.world) m
    step_op (LlvmOp.cond_br c yes_to no_to) r m =
        branch (m.env c) (yes_to.block, yes_to.args) (no_to.block, no_to.args) m
    step_op (LlvmOp.return_op v) r m = Flow.returned (m.env v) m

    abbrev pub step : Instr → Machine V S → Flow V S
    step i m = step_op i.op i.result m

    unfoldable pub run : List Instr → Machine V S → Flow V S
    run [] m = Flow.running m
    run (i ∷ is) m = then_run (step i m) (run is)
