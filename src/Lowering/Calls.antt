-- ===== src/Lowering/Calls.antt =====
-- What the code that pycompile/src/lowering emits calls: the runtime function of the operation, with
-- the operands in order.
use text.Mathlib.Text.{starts_with}
use pycompile.Base.{
  ℕ, suc, ◌<◌, ◌≤◌, ◌≡◌, refl, ◌∙◌, Bool, true, false, List, [], ◌∷◌, ◌++◌, none, some, String, map,
  All, arith,
}
use pycompile.Pyir.{Value}
use pycompile.Lowering.Rewriter.{
  FnType, LlvmType, LlvmOp, Instr, Symbol, Symbols, lookup, Rewriter, Built, built, create,
  create_void, Rewritten, replaced, erased, call_fn, return_type, insert_runtime_func,
}
use pycompile.Lowering.Constants.{
  name_symbol, one_ptr, two_ptrs_void, insert_load_runtime_func, insert_store_runtime_func,
}
use pycompile.Lowering.Machine.{
  Word, Arg, Cells, Machine, Flow, running, Runtime, update, view, args_of, then_run, run, step,
}
use pycompile.Lowering.Stores.{
  with_fn, get_fn_lem, get_string_lem, Agrees, other_name, names_table, lookup-names,
}

-- An object or a null pointer, which a callee is given as it is.
abbrev pub IsPlain : {V : Type 0} → Word V → Type 0
IsPlain (Word.object v) = Unit
IsPlain Word.null = Unit
IsPlain _ = ⊥

-- The rewriter at an operation, with nothing emitted yet.
abbrev pub start : Symbols → ℕ → Rewriter
start table n = record { symbols = table; emitted = []; next_value = n }

pub update-here :
    {V : Type 0} (env : Value → Word V) (n : Value) (w : Word V) → update env n w n ≡ w
update-here env n w = ground arith

pub update-other :
    {V : Type 0} (env : Value → Word V) (n : Value) (w : Word V) (u : Value)
    → u < n
    → update env n w u ≡ env u
update-other env n w u lt = ground arith

module _ {V S : Type 0} (rt : Runtime V S) where
  -- The code runs through, makes the call and no other, and leaves its result as the value that
  -- replaces the operation; the values before it keep theirs.
  abbrev pub Makes : Bool → String → List (Arg V) → ℕ → Machine V S → Built Rewritten → Type 0
  Makes true fn args n m (built (replaced v) r) =
      (after : Machine V S) × (run rt r.symbols r.emitted m ≡ running after)
      × (after.world ≡ (rt fn args m.world).1)
      × (after.env v ≡ (rt fn args m.world).0)
      × ((u : Value) → u < n → after.env u ≡ m.env u)
  Makes false fn args n m (built erased r) =
      (after : Machine V S) × (run rt r.symbols r.emitted m ≡ running after)
      × (after.world ≡ (rt fn args m.world).1)
      × ((u : Value) → u < n → after.env u ≡ m.env u)
  Makes has_return fn args n m _ = ⊥

  pub plain_view :
      (table : Symbols) (memory : List (Cells V)) (w : Word V)
      → IsPlain w
      → view table memory w ≡ Arg.value w
  plain_view table memory (Word.object v) h = refl
  plain_view table memory Word.null h = refl
  plain_view table memory _ h = absurd h

  pub args_of_plain :
      (table : Symbols) (m : Machine V S) (vs : List Value)
      → All (λ v. IsPlain (m.env v)) vs
      → args_of rt table m vs ≡ map (λ v. Arg.value (m.env v)) vs
  args_of_plain table m [] h = refl
  args_of_plain table m (v ∷ vs) h =
      rw (plain_view table m.memory (m.env v) h.0, args_of_plain table m vs h.1) refl

  then_run_assoc :
      (f : Flow V S) (g h : Machine V S → Flow V S)
      → then_run f (λ m. then_run (g m) h) ≡ then_run (then_run f g) h
  then_run_assoc (Flow.running m) g h = refl
  then_run_assoc (Flow.branched b args m) g h = refl
  then_run_assoc (Flow.returned w m) g h = refl
  then_run_assoc Flow.stuck g h = refl

  pub run-append :
      (table : Symbols) (xs ys : List Instr) (m : Machine V S)
      → run rt table (xs ++ ys) m ≡ then_run (run rt table xs m) (run rt table ys)
  unfolding run
  run-append table [] ys m = refl
  run-append table (x ∷ xs) ys m =
      (λ i. then_run (step rt table x m) (λ m'. run-append table xs ys m' i))
      ∙ then_run_assoc (step rt table x m) (run rt table xs) (run rt table ys)

  -- A call after code that changes neither the world nor the values before it.
  pub call_fn-Makes :
      (has_return : Bool) (fn : String) (vs : List Value) (args : List (Arg V)) (n : ℕ)
      (m m1 : Machine V S) (r : Rewriter)
      → n ≤ r.next_value
      → run rt r.symbols r.emitted m ≡ running m1
      → m1.world ≡ m.world
      → ((u : Value) → u < n → m1.env u ≡ m.env u)
      → args_of rt r.symbols m1 vs ≡ args
      → Makes has_return fn args n m (call_fn has_return fn vs r)
  unfolding create create_void run
  call_fn-Makes true fn vs args n m m1 r ge e same kept given = (
    record m1 {
      env = update m1.env r.next_value (rt fn args m.world).0;
      world = (rt fn args m.world).1;
    },
    rw
        (
          run-append r.symbols r.emitted
              (record { op = LlvmOp.call fn vs; result = some r.next_value } ∷ []) m,
          e,
          given,
          same,
        )
        refl,
    refl,
    update-here m1.env r.next_value (rt fn args m.world).0,
    λ u lt. update-other m1.env r.next_value (rt fn args m.world).0 u (omega arith) ∙ kept u lt,
  )
  call_fn-Makes false fn vs args n m m1 r ge e same kept given = (
    record m1 { world = (rt fn args m.world).1 },
    rw
        (
          run-append r.symbols r.emitted (record { op = LlvmOp.call fn vs; result = none } ∷ []) m,
          e,
          given,
          same,
        )
        refl,
    refl,
    kept,
  )

  pub insert_runtime_func-Makes :
      (fn : String) (has_return : Bool) (operands : List Value) (table : Symbols) (n : ℕ)
      (m : Machine V S)
      → All (λ v. IsPlain (m.env v)) operands
      → Makes has_return fn
          (map (λ v. Arg.value (m.env v)) operands)
          n
          m
          (insert_runtime_func fn has_return operands (start table n))
  unfolding insert_runtime_func run
  insert_runtime_func-Makes fn has_return operands table n m plain =
      let type : FnType = record {
        returns = return_type has_return;
        takes = map (λ _. LlvmType.ptr) operands;
      } in
      rw (get_fn_lem fn type (start table n)) (
        call_fn-Makes has_return fn operands _ n m m
          (start (with_fn fn type (lookup fn table) table) n) (omega arith) refl refl (λ u lt. refl)
          (args_of_plain _ m operands plain))

  -- A symbol, and plain values, are passed as what they are.
  symbol_view :
      (table : Symbols) (memory : List (Cells V)) (name text : String)
      → lookup name table ≡ some (Symbol.string_constant text)
      → view table memory (Word.symbol name) ≡ Arg.text text
  symbol_view table memory name text e = rw e refl

  -- The name of a variable is passed as its text.
  pub insert_load_runtime_func-Makes :
      (fn name : String) (table : Symbols) (n : ℕ) (m : Machine V S)
      → starts_with fn "__pyir_str_" ≡ false
      → Agrees table (name_symbol name) name
      → Makes true fn (Arg.text name ∷ []) n m (insert_load_runtime_func fn name (start table n))
  unfolding insert_load_runtime_func create run
  insert_load_runtime_func-Makes fn name table n m differs agrees =
      let first = with_fn fn one_ptr (lookup fn table) table in
      let found =
        lookup-names fn (name_symbol name) name one_ptr table
          (other_name fn "__pyir_str_" name differs) agrees in
      rw
        (
          get_fn_lem fn one_ptr (start table n),
          get_string_lem (name_symbol name) name (start first n),
        )
        (call_fn-Makes true fn (n ∷ []) (Arg.text name ∷ []) n m
          (record m { env = update m.env n (Word.symbol (name_symbol name)) })
          (record {
            symbols = names_table fn (name_symbol name) name one_ptr table;
            emitted = record { op = LlvmOp.address_of (name_symbol name); result = some n } ∷ [];
            next_value = suc n;
          })
          (omega arith) refl refl (update-other m.env n (Word.symbol (name_symbol name)))
          (rw (update-here m.env n (Word.symbol (name_symbol name)), found) refl))

  pub insert_store_runtime_func-Makes :
      (fn name : String) (v : Value) (table : Symbols) (n : ℕ) (m : Machine V S)
      → starts_with fn "__pyir_str_" ≡ false
      → Agrees table (name_symbol name) name
      → v < n
      → IsPlain (m.env v)
      → Makes false fn
          (Arg.text name ∷ Arg.value (m.env v) ∷ [])
          n
          m
          (insert_store_runtime_func fn name v (start table n))
  unfolding insert_store_runtime_func create run
  insert_store_runtime_func-Makes fn name v table n m differs agrees lt plain =
      let first = with_fn fn two_ptrs_void (lookup fn table) table in
      let found =
        lookup-names fn (name_symbol name) name two_ptrs_void table
          (other_name fn "__pyir_str_" name differs) agrees in
      rw
        (
          get_fn_lem fn two_ptrs_void (start table n),
          get_string_lem (name_symbol name) name (start first n),
        )
        (call_fn-Makes false fn (n ∷ v ∷ []) (Arg.text name ∷ Arg.value (m.env v) ∷ []) n m
          (record m { env = update m.env n (Word.symbol (name_symbol name)) })
          (record {
            symbols = names_table fn (name_symbol name) name two_ptrs_void table;
            emitted = record { op = LlvmOp.address_of (name_symbol name); result = some n } ∷ [];
            next_value = suc n;
          })
          (omega arith) refl refl (update-other m.env n (Word.symbol (name_symbol name)))
          (rw
            (
              update-here m.env n (Word.symbol (name_symbol name)),
              found,
              update-other m.env n (Word.symbol (name_symbol name)) v lt,
              plain_view (names_table fn (name_symbol name) name two_ptrs_void table) m.memory
                  (m.env v) plain,
            )
            refl))
