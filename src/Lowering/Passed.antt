-- ===== src/Lowering/Passed.antt =====
-- Arguments that pycompile/src/lowering passes in an array on the stack.
use mathlib.Core.Path.{subst}
use pycompile.Base.{
  ℕ, suc, ◌<◌, ◌≤◌, ◌≡◌, refl, ap, ◌∙◌, true, List, [], ◌∷◌, ◌++◌, some, String, length, get_elem?,
  map, All, All-map, length-map, arith,
}
use pycompile.Base.Int.{pos}
use pycompile.Pyir.{Value}
use pycompile.Lowering.Rewriter.{LlvmOp, Instr, Symbols, lookup, create, call_fn}
use pycompile.Lowering.Arrays.{array_fn, call_runtime_fn, new_array, build_array_type, lower_call}
use pycompile.Lowering.Machine.{
  Word, Arg, Cells, Machine, running, Runtime, update, args_of, then_run, empty_cells, run,
}
use pycompile.Lowering.Stores.{with_fn, get_fn_lem}
use pycompile.Lowering.Calls.{
  IsPlain, start, Makes, update-here, update-other, run-append, call_fn-Makes, plain_view,
}
use pycompile.Lowering.Filled.{
  stores, after_stores, store_all_lem, fill, filling, map-kept, stores-run, fill-empty,
}

-- The code before the loop, and the loop.
abbrev array_code : List Value → ℕ → List Instr
array_code vs n =
    record { op = LlvmOp.const_i64 (pos 1); result = some n }
    ∷ record { op = LlvmOp.alloca (length vs) n; result = some (suc n) }
    ∷ stores (suc n) 0 vs (suc (suc n))

-- The arguments of a call: an array, or a null pointer for none.
abbrev pub passed : {V : Type 0} → (Value → Word V) → List Value → Arg V
passed env [] = Arg.value Word.null
passed env (v ∷ vs) = Arg.items (map some (map env (v ∷ vs)))

module _ {V S : Type 0} (rt : Runtime V S) where
  get_elem?-last :
      (mem : List (Cells V)) (cells : Cells V)
      → get_elem? (mem ++ (cells ∷ [])) (length mem) ≡ some cells
  get_elem?-last [] cells = refl
  get_elem?-last (c ∷ mem) cells = get_elem?-last mem cells

  whole :
      (vs : List Value) (n : ℕ) (env env' : Value → Word V)
      → ((u : Value) → u < n → env' u ≡ env u)
      → All (λ v. v < n) vs
      → fill (empty_cells (length vs)) 0 (map env' vs) ≡ map some (map env vs)
  whole vs n env env' kept below = rw (map-kept n vs env' env kept below) (
      subst (λ k. fill (empty_cells k) 0 (map env vs) ≡ map some (map env vs)) (length-map env vs)
        (fill-empty (map env vs)))

  -- After it, the array's value points to an array of the values.
  array_code-run :
      (table : Symbols) (vs : List Value) (n : ℕ) (m : Machine V S)
      → All (λ v. v < n) vs
      → (env' : Value → Word V) × (run rt table (array_code vs n) m
          ≡ running (record {
            env = env';
            memory = m.memory ++ (map some (map m.env vs) ∷ []);
            world = m.world;
          }))
        × (env' (suc n) ≡ Word.array (length m.memory))
        × ((u : Value) → u < n → env' u ≡ m.env u)
  unfolding run
  array_code-run table vs n m below =
      let size : Word V = Word.int (pos 1) in
      let env1 = update m.env n size in
      let env2 = update env1 (suc n) (Word.array (length m.memory)) in
      let kept : (u : Value) → u < n → env2 u ≡ m.env u = λ u h.
        update-other env1 (suc n) (Word.array (length m.memory)) u (omega arith)
        ∙ update-other m.env n size u h in
      let (env', ran, same) =
        stores-run rt table (suc (suc n)) m.memory m.world (suc n) (omega arith) vs env2
          (empty_cells (length vs)) 0 (suc (suc n)) (omega arith)
          (update-here env1 (suc n) (Word.array (length m.memory)))
          (All-map (λ v. v < n) (λ v. v < suc (suc n)) vs (λ v h. omega arith) below) in
      (
        env',
        ran
            ∙ ap
                (λ cells. running (
                  filling rt table (suc (suc n)) m.memory m.world (suc n) (omega arith) env' cells))
                (whole vs n m.env env2 kept below),
        same (suc n) (omega arith) ∙ update-here env1 (suc n) (Word.array (length m.memory)),
        λ u h. same u (omega arith) ∙ kept u h,
      )

  -- What a call is given after plain arguments: the array and the number of its elements.
  array_args :
      (table : Symbols) (first : List Value) (vs : List Value) (n k : ℕ) (m m1 : Machine V S)
      → All (λ v. v < n) first
      → All (λ v. IsPlain (m.env v)) first
      → m1.memory ≡ m.memory ++ (map some (map m.env vs) ∷ [])
      → m1.env (suc n) ≡ Word.array (length m.memory)
      → m1.env k ≡ Word.int (pos (length vs))
      → ((u : Value) → u < n → m1.env u ≡ m.env u)
      → args_of rt table m1 (first ++ (suc n ∷ k ∷ []))
        ≡ map (λ v. Arg.value (m.env v)) first
          ++ (Arg.items (map some (map m.env vs)) ∷ Arg.value (Word.int (pos (length vs))) ∷ [])
  array_args table [] vs n k m m1 below plain stored is_array is_count kept =
      rw (is_array, is_count, stored, get_elem?-last m.memory (map some (map m.env vs))) refl
  array_args table (c ∷ cs) vs n k m m1 below plain stored is_array is_count kept =
      rw (kept c below.0, plain_view rt table m1.memory (m.env c) plain.0)
        (ap (λ args. Arg.value (m.env c) ∷ args)
          (array_args table cs vs n k m m1 below.1 plain.1 stored is_array is_count kept))

  after_stores_le : (vs : List Value) (k : ℕ) → k ≤ after_stores vs k
  after_stores_le [] k = omega arith
  after_stores_le (v ∷ vs) k = omega (arith, after_stores_le vs (suc (suc k)))

  -- A call with plain arguments, the array and its count.
  array_call-Makes :
      (fn : String) (first vs : List Value) (table : Symbols) (n : ℕ) (m : Machine V S)
      → All (λ v. v < n) first
      → All (λ v. IsPlain (m.env v)) first
      → All (λ v. v < n) vs
      → Makes rt true fn
          (map (λ v. Arg.value (m.env v)) first
            ++ (Arg.items (map some (map m.env vs)) ∷ Arg.value (Word.int (pos (length vs))) ∷ []))
          n
          m
          (call_fn true fn (first ++ (suc n ∷ after_stores vs (suc (suc n)) ∷ [])) (record {
            symbols = table;
            emitted =
                array_code vs n
                ++ (record {
                  op = LlvmOp.const_i64 (pos (length vs));
                  result = some (after_stores vs (suc (suc n)));
                }
                    ∷ []);
            next_value = suc (after_stores vs (suc (suc n)));
          }))
  unfolding run
  array_call-Makes fn first vs table n m below plain below' =
      let k = after_stores vs (suc (suc n)) in
      let le = after_stores_le vs (suc (suc n)) in
      let count : Word V = Word.int (pos (length vs)) in
      let (env', ran, is_array, kept) = array_code-run table vs n m below' in
      let m1 : Machine V S = record {
        env = update env' k count;
        memory = m.memory ++ (map some (map m.env vs) ∷ []);
        world = m.world;
      } in
      let kept' : (u : Value) → u < n → update env' k count u ≡ m.env u =
        λ u h. update-other env' k count u (omega arith) ∙ kept u h in
      call_fn-Makes rt true fn _ _ n m m1 _ (omega arith)
        (run-append rt table (array_code vs n)
            (record { op = LlvmOp.const_i64 (pos (length vs)); result = some k } ∷ []) m
          ∙ ap
              (λ f. then_run f (
                run rt table
                  (record { op = LlvmOp.const_i64 (pos (length vs)); result = some k } ∷ [])))
              ran)
        refl kept'
        (array_args table first vs n k m m1 below plain refl
          (update-other env' k count (suc n) (omega arith) ∙ is_array) (update-here env' k count)
          kept')

  -- The parts of a list, a set, a map or a string are passed in an array, in order, with their number.
  pub build_array_type-Makes :
      (fn : String) (vs : List Value) (table : Symbols) (n : ℕ) (m : Machine V S)
      → All (λ v. v < n) vs
      → Makes rt true fn
          (Arg.items (map some (map m.env vs)) ∷ Arg.value (Word.int (pos (length vs))) ∷ [])
          n
          m
          (build_array_type fn vs (start table n))
  unfolding build_array_type new_array create run
  build_array_type-Makes fn vs table n m below =
      let k = after_stores vs (suc (suc n)) in
      rw
        (
          store_all_lem (suc n) 0 vs (record {
            symbols = table;
            emitted =
                record { op = LlvmOp.const_i64 (pos 1); result = some n }
                ∷ record { op = LlvmOp.alloca (length vs) n; result = some (suc n) }
                ∷ [];
            next_value = suc (suc n);
          }),
          get_fn_lem fn array_fn
              (record { symbols = table; emitted = array_code vs n; next_value = k }),
        )
        (array_call-Makes fn [] vs (with_fn fn array_fn (lookup fn table) table) n m tt tt below)

  pub lower_call-Makes :
      (callee : Value) (vs : List Value) (table : Symbols) (n : ℕ) (m : Machine V S)
      → callee < n
      → IsPlain (m.env callee)
      → All (λ v. v < n) vs
      → Makes rt true "pyir_call"
          (Arg.value (m.env callee) ∷ passed m.env vs ∷ Arg.value (Word.int (pos (length vs))) ∷ [])
          n
          m
          (lower_call callee vs (start table n))
  unfolding lower_call new_array create run
  lower_call-Makes callee [] table n m lt plain below =
      let T = with_fn "pyir_call" call_runtime_fn (lookup "pyir_call" table) table in
      let env1 = update m.env n Word.null in
      let none_passed : Word V = Word.int (pos 0) in
      let env2 = update env1 (suc n) none_passed in
      let kept : (u : Value) → u < n → env2 u ≡ m.env u = λ u h.
        update-other env1 (suc n) none_passed u (omega arith)
        ∙ update-other m.env n Word.null u h in
      rw (get_fn_lem "pyir_call" call_runtime_fn (start table n)) (
        call_fn-Makes rt true "pyir_call" (callee ∷ n ∷ suc n ∷ []) _ n m (record m { env = env2 })
          (record {
            symbols = T;
            emitted =
                record { op = LlvmOp.zero_ptr; result = some n }
                ∷ record { op = LlvmOp.const_i64 (pos 0); result = some (suc n) }
                ∷ [];
            next_value = suc (suc n);
          })
          (omega arith) refl refl kept
          (rw
            (
              kept callee lt,
              plain_view rt T m.memory (m.env callee) plain,
              update-other env1 (suc n) none_passed n (omega arith),
              update-here m.env n Word.null,
              update-here env1 (suc n) none_passed,
            )
            refl))
  lower_call-Makes callee (v ∷ vs) table n m lt plain below =
      let k = after_stores (v ∷ vs) (suc (suc n)) in
      let T = with_fn "pyir_call" call_runtime_fn (lookup "pyir_call" table) table in
      rw
        (
          get_fn_lem "pyir_call" call_runtime_fn (start table n),
          store_all_lem (suc n) 0 (v ∷ vs) (record {
            symbols = T;
            emitted =
                record { op = LlvmOp.const_i64 (pos 1); result = some n }
                ∷ record { op = LlvmOp.alloca (length (v ∷ vs)) n; result = some (suc n) }
                ∷ [];
            next_value = suc (suc n);
          }),
        )
        (array_call-Makes "pyir_call" (callee ∷ []) (v ∷ vs) T n m (lt, tt) (plain, tt) below)
