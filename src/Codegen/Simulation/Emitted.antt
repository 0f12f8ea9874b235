-- ===== src/Codegen/Simulation/Emitted.antt =====
-- What the code generator has emitted in front of its insertion point, and what running it does.
-- `exec` stands for the runtime library: it gives an operation's value and the next runtime state.
use native.Mathlib.Numerals.{add-one}
use pycompile.Base.{
  get_elem?-set-some, ℕ, zero, suc, ◌+◌, ◌≤◌, ◌≡◌, refl, List, [], ◌∷◌, ◌++◌, Option, none, some,
  map, length, get_elem?, take, drop, arith, ◌==◌, if◌then◌else◌,
}
use pycompile.Pyir.{Value, OpName, Op, Block, Func}
use pycompile.Codegen.State.{State, insert_op, on_block, on_func, block_of}

module _ {V : Type 0} where
  -- The environment after an operation with the given result.
  abbrev pub assign : Option Value → V → (Value → V) → Value → V
  assign none x env = env
  assign (some v) x env = λ w. if v == w then x else env w

module _ {V S : Type 0} (exec : OpName → List V → S → V × S) where
  -- The operations of a block in order, over an environment of SSA values.
  unfoldable pub run_ops : List Op → (Value → V) → S → (Value → V) × S
  run_ops [] env rt = (env, rt)
  run_ops (op ∷ ops) env rt =
      let r = exec op.name (map env op.operands) rt in run_ops ops (assign op.result r.0 env) r.1

  pub run_ops-append :
      (xs ys : List Op) (env : Value → V) (rt : S)
      → run_ops (xs ++ ys) env rt ≡ run_ops ys (run_ops xs env rt).0 (run_ops xs env rt).1
  unfolding run_ops
  run_ops-append [] ys env rt = refl
  run_ops-append (op ∷ xs) ys env rt =
      run_ops-append xs ys (assign op.result (exec op.name (map env op.operands) rt).0 env)
        (exec op.name (map env op.operands) rt).1

-- The operations in front of the insertion point.
abbrev pub emitted_in : Option Block → ℕ → List Op
emitted_in none pos = []
emitted_in (some b) pos = take pos b.ops

abbrev pub emitted : State → List Op
emitted s = emitted_in (block_of s.at_fn s.at_block s.funcs) s.at_pos

-- The insertion point stands in a block, at or before its end.
abbrev pub IsPlacedIn : Option Block → ℕ → Type 0
IsPlacedIn none pos = ⊥
IsPlacedIn (some b) pos = pos ≤ length b.ops

abbrev pub IsPlaced : State → Type 0
IsPlaced s = IsPlacedIn (block_of s.at_fn s.at_block s.funcs) s.at_pos

take-insert :
    (p : ℕ) (x : Op) (xs : List Op)
    → p ≤ length xs
    → take (suc p) (take p xs ++ (x ∷ drop p xs)) ≡ take p xs ++ (x ∷ [])
take-insert zero x xs h = refl
take-insert (suc p) x [] h = absurd (omega arith)
take-insert (suc p) x (y ∷ xs) h = rw (take-insert p x xs (omega arith))

length-insert :
    (p : ℕ) (x : Op) (xs : List Op) → p ≤ length xs → suc p ≤ length (take p xs ++ (x ∷ drop p xs))
length-insert zero x xs h = omega arith
length-insert (suc p) x [] h = absurd (omega arith)
length-insert (suc p) x (y ∷ xs) h = omega (arith, length-insert p x xs (omega arith))

-- Changing a block of a function is seen at that block.
pub block_of-on_func :
    (g : Block → Block) (f b : ℕ) (fns : List Func) {blk : Block}
    → block_of f b fns ≡ some blk
    → block_of f b (on_func (on_block g b) f fns) ≡ some (g blk)
unfolding block_of on_func on_block
block_of-on_func g f b fns {blk} h = go (get_elem? fns f) refl h
  where
    go :
        (o : Option Func)
        → get_elem? fns f ≡ o
        → elim o [ none ↦ none | some fn ↦ get_elem? fn.blocks b ] ≡ some blk
        → block_of f b (on_func (on_block g b) f fns) ≡ some (g blk)
    go none e q = cc
    go (some fn) e q = ground (
      arith,
      get_elem?-set-some fns f fn (on_block g b fn) e,
      get_elem?-set-some fn.blocks b blk (g blk) q,
    )

-- The functions after an insertion.
abbrev pub with_op : Op → State → List Func
with_op op s = on_func (on_block (insert_op op s.at_pos) s.at_block) s.at_fn s.funcs

-- An inserted operation comes behind the emitted ones, and the insertion point behind it.
pub emitted-insert :
    (op : Op) (s : State)
    → IsPlaced s
    → (emitted_in (block_of s.at_fn s.at_block (with_op op s)) (s.at_pos + 1)
        ≡ emitted s ++ (op ∷ []))
      × IsPlacedIn (block_of s.at_fn s.at_block (with_op op s)) (s.at_pos + 1)
unfolding insert_op
emitted-insert op s h = go (block_of s.at_fn s.at_block s.funcs) refl h
  where
    go :
        (o : Option Block)
        → block_of s.at_fn s.at_block s.funcs ≡ o
        → IsPlacedIn o s.at_pos
        → (emitted_in (block_of s.at_fn s.at_block (with_op op s)) (s.at_pos + 1)
            ≡ emitted_in o s.at_pos ++ (op ∷ []))
          × IsPlacedIn (block_of s.at_fn s.at_block (with_op op s)) (s.at_pos + 1)
    go none e p = absurd p
    go (some b) e p =
        rw (block_of-on_func (insert_op op s.at_pos) s.at_fn s.at_block s.funcs e, add-one)
          (take-insert s.at_pos op b.ops p, length-insert s.at_pos op b.ops p)
