-- ===== src/Lowering/Branches.antt =====
-- The operations of pycompile/src/lowering that branch on what a runtime function returns.
use pycompile.Base.{
  ℕ, suc, ◌<◌, ◌≡◌, refl, ap, ◌∙◌, true, false, List, [], ◌∷◌, none, some, map, All, arith,
}
use pycompile.Pyir.{Value}
use pycompile.Lowering.Rewriter.{
  LlvmOp, Instr, Symbols, lookup, Rewriter, Built, built, create, create_void, Rewritten,
}
use pycompile.Lowering.Constants.{one_ptr}
use pycompile.Lowering.Patterns.{lower_for_iter}
use pycompile.Lowering.Machine.{Word, Arg, Machine, Flow, Runtime, update, run}
use pycompile.Lowering.Stores.{with_fn, get_fn_lem}
use pycompile.Lowering.Calls.{IsPlain, start, update-here, update-other, plain_view}
use pycompile.Lowering.Filled.{map-kept}

module _ {V S : Type 0} (rt : Runtime V S) where
  -- Control goes to the body with the value, or, when there is none, to the exit with its arguments.
  abbrev pub Continues : Word V → S → Machine V S → ℕ → ℕ → List Value → Flow V S → Type 0
  Continues (Word.object v) t m body exit args (Flow.branched block ws after) =
      (block ≡ body) × (ws ≡ Word.object v ∷ []) × (after.world ≡ t)
  Continues Word.null t m body exit args (Flow.branched block ws after) =
      (block ≡ exit) × (ws ≡ map m.env args) × (after.world ≡ t)
  Continues _ t m body exit args _ = ⊥

  abbrev pub AfterBuilt : (Rewriter → Type 0) → Built Rewritten → Type 0
  AfterBuilt P (built x r) = P r
  AfterBuilt P _ = ⊥

  -- What `pyir_forIter` returns.
  abbrev next_of : Machine V S → Value → Word V × S
  next_of m it = rt "pyir_forIter" (Arg.value (m.env it) ∷ []) m.world

  abbrev loop_code : ℕ → ℕ → ℕ → List Value → List Instr
  loop_code n body exit args =
      record { op = LlvmOp.zero_ptr; result = some (suc n) }
      ∷ record { op = LlvmOp.icmp_ne n (suc n); result = some (suc (suc n)) }
      ∷ record {
        op =
            LlvmOp.cond_br (suc (suc n)) (record { block = body; args = n ∷ [] })
              (record { block = exit; args = args });
        result = none;
      }
      ∷ []

  module _ (table : Symbols) (n : ℕ) (m : Machine V S) (body exit : ℕ) (args : List Value)
      (below : All (λ v. v < n) args) where
    tested : Word V → Word V → Value → Word V
    tested w flag = update (update (update m.env n w) (suc n) Word.null) (suc (suc n)) flag

    tested-n : (w flag : Word V) → tested w flag n ≡ w
    unfolding tested
    tested-n w flag =
        update-other (update (update m.env n w) (suc n) Word.null) (suc (suc n)) flag n
          (omega arith)
        ∙ (update-other (update m.env n w) (suc n) Word.null n (omega arith)
            ∙ update-here m.env n w)

    tested-args : (w flag : Word V) → map (tested w flag) args ≡ map m.env args
    unfolding tested
    tested-args w flag =
        map-kept n args (tested w flag) m.env
          (λ u h.
            update-other (update (update m.env n w) (suc n) Word.null) (suc (suc n)) flag u
              (omega arith)
            ∙ (update-other (update m.env n w) (suc n) Word.null u (omega arith)
                ∙ update-other m.env n w u h))
          below

    loop_code-Continues :
        (w : Word V) (t : S)
        → IsPlain w
        → Continues w t m body exit args (
            run rt table
              (loop_code n body exit args)
              (record m { env = update m.env n w; world = t }))
    unfolding run tested
    loop_code-Continues (Word.object v) t p =
        let w : Word V = Word.object v in
        rw
          (
            update-other (update m.env n w) (suc n) Word.null n (omega arith),
            update-here m.env n w,
            update-here (update m.env n w) (suc n) Word.null,
            update-here (update (update m.env n w) (suc n) Word.null) (suc (suc n)) (Word.bit true),
          )
          (refl, ap (λ x. x ∷ []) (tested-n w (Word.bit true)), refl)
    loop_code-Continues Word.null t p =
        let w : Word V = Word.null in
        rw
          (
            update-other (update m.env n w) (suc n) Word.null n (omega arith),
            update-here m.env n w,
            update-here (update m.env n w) (suc n) Word.null,
            update-here (update (update m.env n w) (suc n) Word.null) (suc (suc n))
                (Word.bit false),
          )
          (refl, tested-args w (Word.bit false), refl)
    loop_code-Continues _ t p = absurd p

  -- A for loop asks the runtime for the next value of the iterator, once: control goes to the body
  -- with an object that is returned, and to the exit, with the exit's arguments, when the null pointer
  -- is; the iterator and the arguments were made before, and the runtime returns an object or null.
  pub lower_for_iter-Continues :
      (it : Value) (args : List Value) (body exit : ℕ) (table : Symbols) (n : ℕ) (m : Machine V S)
      → it < n
      → IsPlain (m.env it)
      → All (λ v. v < n) args
      → IsPlain (next_of m it).0
      → AfterBuilt
          (λ r.
            Continues
              (next_of m it).0
              (next_of m it).1
              m
              body
              exit
              args
              (run rt r.symbols r.emitted m))
          (lower_for_iter it args body exit (start table n))
  unfolding lower_for_iter create create_void run
  lower_for_iter-Continues it args body exit table n m lt plain below returned =
      rw
        (
          get_fn_lem "pyir_forIter" one_ptr (start table n),
          plain_view rt (with_fn "pyir_forIter" one_ptr (lookup "pyir_forIter" table) table)
              m.memory (m.env it) plain,
        )
        (loop_code-Continues (with_fn "pyir_forIter" one_ptr (lookup "pyir_forIter" table) table) n
          m body exit args below (next_of m it).0 (next_of m it).1 returned)
