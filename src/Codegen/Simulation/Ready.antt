-- ===== src/Codegen/Simulation/Ready.antt =====
-- A state of the code generator as a state of the stack machine, and the two ways of emitting.
use pycompile.Base.{
  ℕ, ◌+◌, ◌<◌, ◌≡◌, refl, ◌∙◌, Bool, List, [], ◌∷◌, Option, none, some, map, All, All-map, arith,
}
use pycompile.Pyir.{Value, OpName, Op}
use pycompile.Codegen.State.{
  State, Result, ok, err, Gen, ◌>>=◌, push, create, create_void, block_of, and_then,
}
use pycompile.Codegen.Simulation.Emitted.{
  assign, run_ops, run_ops-append, emitted, emitted_in, IsPlaced, with_op, emitted-insert,
}
use pycompile.Codegen.Simulation.Machine.{Machine, and_some}

-- The insertion point is placed, the stack holds values made before, no offset is a jump target,
-- and the module is a function or not.
pub record IsReady (function : Bool) (s : State) : Type 0 where
  pub placed : IsPlaced s
  pub below : All (λ v. v < s.next_value) s.stack
  pub no_targets : s.offset_to_block ≡ []
  pub mode : s.is_function ≡ function

module _ {V S : Type 0} (exec : OpName → List V → S → V × S) (env₀ : Value → V) (rt₀ : S) where
  -- The environment and the runtime state after the emitted operations.
  abbrev pub outcome : State → (Value → V) × S
  outcome s = run_ops exec (emitted s) env₀ rt₀

  -- The stack of SSA values as a stack of the values that they have.
  abbrev pub denote : State → Machine V S
  denote s = record { stack = map (outcome s).0 s.stack; rt = (outcome s).1 }

  -- The generator fails where the machine cannot run, and else reaches a state that stands for the
  -- machine's.
  abbrev pub Sound : Bool → Result (Unit {0}) → Option (Machine V S) → Type 0
  Sound function (ok _ s) (some m) = (denote s ≡ m) × IsReady function s
  Sound function (ok _ s) none = ⊥
  Sound function (err e) (some m) = ⊥
  Sound function (err e) none = Unit

  map-assign_fresh :
      (n : ℕ) (x : V) (env : Value → V) (vs : List Value)
      → All (λ v. v < n) vs
      → map (assign (some n) x env) vs ≡ map env vs
  map-assign_fresh n x env [] h = refl
  map-assign_fresh n x env (v ∷ vs) h =
      let older : v < n = h.0 in ground (arith, map-assign_fresh n x env vs h.1)

  map-assign_push :
      (n : ℕ) (x : V) (env : Value → V) (vs : List Value)
      → All (λ v. v < n) vs
      → map (assign (some n) x env) (n ∷ vs) ≡ x ∷ map env vs
  map-assign_push n x env vs h = ground (arith, map-assign_fresh n x env vs h)

  outcome-insert :
      (op : Op) (s : State)
      → IsPlaced s
      → run_ops exec
          (emitted_in (block_of s.at_fn s.at_block (with_op op s)) (s.at_pos + 1))
          env₀
          rt₀
        ≡ run_ops exec (op ∷ []) (outcome s).0 (outcome s).1
  outcome-insert op s h =
      rw ((emitted-insert op s h).0) (run_ops-append exec (emitted s) (op ∷ []) env₀ rt₀)

  -- An operation with a result, pushed.
  pub create-push-Sound :
      (function : Bool) (name : OpName) (operands : List Value) (s : State)
      → IsReady function s
      → Sound function ((create name operands >>= push) s) (
          some (record {
            stack =
                (exec name (map (outcome s).0 operands) (outcome s).1).0
                ∷ map (outcome s).0 s.stack;
            rt = (exec name (map (outcome s).0 operands) (outcome s).1).1;
          }))
  unfolding create push run_ops
  create-push-Sound function name operands s r =
      let op : Op = record {
        name = name;
        operands = operands;
        successors = [];
        result = some s.next_value;
      } in
      let t : State = record s { next_value = s.next_value + 1 } in
      let e = outcome-insert op t r.placed in
      let p =
        map-assign_push s.next_value (exec name (map (outcome s).0 operands) (outcome s).1).0
          (outcome s).0 s.stack r.below in
      (
        (λ i. record { stack = map (e i).0 (s.next_value ∷ s.stack); rt = (e i).1 }) ∙ (λ i.
            record { stack = p i; rt = (exec name (map (outcome s).0 operands) (outcome s).1).1 }),
        record {
          placed = (emitted-insert op t r.placed).1;
          below = (
            omega arith,
            All-map (λ v. v < s.next_value) (λ v. v < s.next_value + 1) s.stack (λ v h. omega arith)
                r.below,
          );
          no_targets = r.no_targets;
          mode = r.mode;
        },
      )

  -- An operation without a result.
  pub create_void-Sound :
      (function : Bool) (name : OpName) (operands : List Value) (s : State)
      → IsReady function s
      → Sound function (create_void name operands s) (
          some (record {
            stack = map (outcome s).0 s.stack;
            rt = (exec name (map (outcome s).0 operands) (outcome s).1).1;
          }))
  unfolding create_void run_ops
  create_void-Sound function name operands s r =
      let op : Op = record { name = name; operands = operands; successors = []; result = none } in
      let e = outcome-insert op s r.placed in
      (
        (λ i. record { stack = map (e i).0 s.stack; rt = (e i).1 }),
        record {
          placed = (emitted-insert op s r.placed).1;
          below = r.below;
          no_targets = r.no_targets;
          mode = r.mode;
        },
      )

  -- Two steps in a row.
  pub Sound-bind :
      (function : Bool) (r : Result (Unit {0})) (m : Option (Machine V S)) (f : Gen (Unit {0}))
      (g : Machine V S → Option (Machine V S))
      → Sound function r m
      → ((s : State) → IsReady function s → Sound function (f s) (g (denote s)))
      → Sound function (and_then r (λ _. f)) (and_some m g)
  Sound-bind function (ok u s) (some m) f g h k = rw (← h.0) (k s h.1)
  Sound-bind function (ok u s) none f g h k = absurd h
  Sound-bind function (err e) (some m) f g h k = absurd h
  Sound-bind function (err e) none f g h k = tt
