-- ===== src/Lowering/Filled.antt =====
-- The loops of pycompile/src/lowering that fill an array on the stack: what the array holds after.
use mathlib.Core.List.{append-nil}
use pycompile.Base.{
  ℕ, suc, ◌<◌, ◌≤◌, ◌≡◌, refl, sym, ap, ◌∙◌, List, [], ◌∷◌, ◌++◌, Option, none, some, length, set,
  map, All, arith,
}
use pycompile.Base.Int.{pos}
use pycompile.Pyir.{Value}
use pycompile.Lowering.Rewriter.{LlvmOp, Instr, Symbols, Rewriter, built, create, create_void}
use pycompile.Lowering.Arrays.{store_at, store_all}
use pycompile.Lowering.Machine.{
  Word, Cells, Machine, running, Runtime, update, cells_at, empty_cells, run,
}
use pycompile.Lowering.Calls.{update-here, update-other}

-- The instructions of the loop, from the next value on, and the next value after it.
abbrev pub stores : Value → ℕ → List Value → Value → List Instr
stores array i [] n = []
stores array i (v ∷ vs) n =
    record { op = LlvmOp.const_i64 (pos i); result = some n }
    ∷ record { op = LlvmOp.gep array n; result = some (suc n) }
    ∷ record { op = LlvmOp.store v (suc n); result = none }
    ∷ stores array (suc i) vs (suc (suc n))

abbrev pub after_stores : List Value → Value → Value
after_stores [] n = n
after_stores (v ∷ vs) n = after_stores vs (suc (suc n))

append-three :
    (is : List Instr) (a b c : Instr) (rest : List Instr)
    → is ++ (a ∷ []) ++ (b ∷ []) ++ (c ∷ []) ++ rest ≡ is ++ (a ∷ b ∷ c ∷ rest)
append-three [] a b c rest = refl
append-three (i ∷ is) a b c rest = ap (◌∷◌ i) (append-three is a b c rest)

pub store_all_lem :
    (array : Value) (i : ℕ) (vs : List Value) (r : Rewriter)
    → store_all array i vs r
      ≡ built tt (record r {
        emitted = r.emitted ++ stores array i vs r.next_value;
        next_value = after_stores vs r.next_value;
      })
unfolding store_all store_at create create_void
store_all_lem array i [] r =
    ap (λ is. built tt (record r { emitted = is })) (sym (append-nil r.emitted))
store_all_lem array i (v ∷ vs) r =
    store_all_lem array (suc i) vs _
    ∙ ap
        (λ is.
          built tt
            (record r { emitted = is; next_value = after_stores vs (suc (suc r.next_value)) }))
        (append-three r.emitted _ _ _ (stores array (suc i) vs (suc (suc r.next_value))))

abbrev pub fill : {V : Type 0} → Cells V → ℕ → List (Word V) → Cells V
fill cells i [] = cells
fill cells i (w ∷ ws) = fill (set cells i (some w)) (suc i) ws

pub cells_at-append :
    {V : Type 0} (mem : List (Cells V)) (cells : Cells V)
    → cells_at (mem ++ (cells ∷ [])) (length mem) ≡ cells
cells_at-append [] cells = refl
cells_at-append (c ∷ mem) cells = cells_at-append mem cells

pub set-append :
    {A : Type 0} (xs : List A) (x y : A) → set (xs ++ (x ∷ [])) (length xs) y ≡ xs ++ (y ∷ [])
set-append [] x y = refl
set-append (z ∷ xs) x y = ap (◌∷◌ z) (set-append xs x y)

pub map-kept :
    {V : Type 0} (n : ℕ) (vs : List Value) (env' env : Value → Word V)
    → ((u : Value) → u < n → env' u ≡ env u)
    → All (λ v. v < n) vs
    → map env' vs ≡ map env vs
map-kept n [] env' env kept below = refl
map-kept n (v ∷ vs) env' env kept below =
    rw (kept v below.0, map-kept n vs env' env kept below.1) refl

module _ {V S : Type 0} (rt : Runtime V S) (table : Symbols) (n : ℕ) (mem : List (Cells V)) (t : S)
    (array : Value) (lt : array < n) where
  -- A machine of which the last array is the one being filled.
  abbrev pub filling : (Value → Word V) → Cells V → Machine V S
  filling env cells = record { env = env; memory = mem ++ (cells ∷ []); world = t }

  one_store :
      (env : Value → Word V) (cells : Cells V) (i k : ℕ) (v : Value) (rest : List Instr)
      → n ≤ k
      → v < n
      → env array ≡ Word.array (length mem)
      → run rt table
          (record { op = LlvmOp.const_i64 (pos i); result = some k }
            ∷ record { op = LlvmOp.gep array k; result = some (suc k) }
            ∷ record { op = LlvmOp.store v (suc k); result = none }
            ∷ rest)
          (filling env cells)
        ≡ run rt table rest (
            filling
              (update (update env k (Word.int (pos i))) (suc k) (Word.element (length mem) i))
              (set cells i (some (env v))))
  unfolding run
  one_store env cells i k v rest ge v_lt is_array =
      rw
        (
          update-other env k (Word.int (pos i)) array (omega arith),
          is_array,
          update-here env k (Word.int (pos i)),
        )
        (rw
          (
            update-here (update env k (Word.int (pos i))) (suc k) (Word.element (length mem) i),
            update-other (update env k (Word.int (pos i))) (suc k) (Word.element (length mem) i) v
                (omega arith),
            update-other env k (Word.int (pos i)) v (omega arith),
            cells_at-append mem cells,
            set-append mem cells (set cells i (some (env v))),
          )
          refl)

  -- The loop writes the values in order, from the index on; the world, the other arrays and the
  -- values before it keep what they were.
  pub stores-run :
      (vs : List Value) (env : Value → Word V) (cells : Cells V) (i k : ℕ)
      → n ≤ k
      → env array ≡ Word.array (length mem)
      → All (λ v. v < n) vs
      → (env' : Value → Word V) × (run rt table (stores array i vs k) (filling env cells)
          ≡ running (filling env' (fill cells i (map env vs))))
        × ((u : Value) → u < n → env' u ≡ env u)
  unfolding run
  stores-run [] env cells i k ge is_array below = (env, refl, λ u h. refl)
  stores-run (v ∷ vs) env cells i k ge is_array below =
      let env1 = update env k (Word.int (pos i)) in
      let env2 = update env1 (suc k) (Word.element (length mem) i) in
      let kept : (u : Value) → u < n → env2 u ≡ env u = λ u h.
        update-other env1 (suc k) (Word.element (length mem) i) u (omega arith)
        ∙ update-other env k (Word.int (pos i)) u (omega arith) in
      let (env', ran, same) =
        stores-run vs env2 (set cells i (some (env v))) (suc i) (suc (suc k)) (omega arith)
          (kept array lt ∙ is_array) below.1 in
      (
        env',
        one_store env cells i k v (stores array (suc i) vs (suc (suc k))) ge below.0 is_array
            ∙ (ran
                ∙ ap (λ ws. running (filling env' (fill (set cells i (some (env v))) (suc i) ws)))
                    (map-kept n vs env2 env kept below.1)),
        λ u h. same u h ∙ kept u h,
      )

fill-cons :
    {V : Type 0} (c : Option (Word V)) (cells : Cells V) (i : ℕ) (ws : List (Word V))
    → fill (c ∷ cells) (suc i) ws ≡ c ∷ fill cells i ws
fill-cons c cells i [] = refl
fill-cons c cells i (w ∷ ws) = fill-cons c (set cells i (some w)) (suc i) ws

-- A new array is filled by as many values as it has cells.
pub fill-empty :
    {V : Type 0} (ws : List (Word V)) → fill (empty_cells (length ws)) 0 ws ≡ map some ws
fill-empty [] = refl
fill-empty (w ∷ ws) =
    fill-cons (some w) (empty_cells (length ws)) 0 ws ∙ ap (◌∷◌ (some w)) (fill-empty ws)
