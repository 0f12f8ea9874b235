-- ===== src/Codegen/Simulation/Shapes.antt =====
-- The shapes that the code generators share, against the stack machine: the values that
-- are taken off the stack, and the operation that is emitted.
use pycompile.Base.{
  ℕ, zero, suc, ◌<◌, ◌≡◌, refl, ap, ◌∙◌, Bool, List, [], ◌∷◌, Option, none, some, map, All,
  get_elem?, set, arith, inl, inr, Option-cases,
}
use pycompile.Base.Int.{pos}
use pycompile.Pyir.{Value, OpName}
use pycompile.Codegen.State.{
  Error, State, ok, err, Gen, ◌>>=◌, push, pop, stack_at, top, create, create_void,
}
use pycompile.Codegen.Driver.{swap_stack, pop_top_codegen}
use pycompile.Codegen.Simulation.Machine
use pycompile.Codegen.Simulation.Machine.{Machine}
use pycompile.Codegen.Simulation.Ready.{
  IsReady, outcome, Sound, create-push-Sound, create_void-Sound,
}

pub stack_at-some :
    (i : ℕ) (s : State) {c : Value}
    → get_elem? s.stack i ≡ some c
    → stack_at (pos (suc i)) s ≡ ok c s
unfolding stack_at
stack_at-some i s e = rw (e, stack_at)

pub stack_at_none :
    (i : ℕ) (s : State)
    → get_elem? s.stack i ≡ none
    → stack_at (pos (suc i)) s ≡ err Error.out_of_range
unfolding stack_at
stack_at_none i s e = rw (e, stack_at)

-- The state with another stack.
abbrev pub with_stack : State → List Value → State
with_stack s vs = record s { stack = vs }

pub IsReady-tail :
    (function : Bool) (s : State) (v : Value) (vs : List Value)
    → IsReady function (with_stack s (v ∷ vs))
    → IsReady function (with_stack s vs)
IsReady-tail function s v vs r = record {
  placed = r.placed;
  below = r.below.1;
  no_targets = r.no_targets;
  mode = r.mode;
}

module _ {V S : Type 0} (exec : OpName → List V → S → V × S) (env₀ : Value → V) (rt₀ : S)
    (function : Bool) (s : State) where
  abbrev Ready : List Value → Type 0
  Ready vs = IsReady function (with_stack s vs)

  abbrev values : List Value → List V
  values vs = map (outcome exec env₀ rt₀ s).0 vs

  abbrev now : S
  now = (outcome exec env₀ rt₀ s).1

  abbrev Agrees : Gen (Unit {0}) → List Value → Option (Machine V S) → Type 0
  Agrees m vs result = Sound exec env₀ rt₀ function (m (with_stack s vs)) result

  pub produce-Sound :
      (name : OpName) (vs : List Value)
      → Ready vs
      → Agrees (create name [] >>= push) vs (Machine.produce exec name [] (values vs) now)
  produce-Sound name vs r = create-push-Sound exec env₀ rt₀ function name [] (with_stack s vs) r

  pub unary-Sound :
      (name : OpName) (vs : List Value)
      → Ready vs
      → Agrees
          (do v ← pop; w ← create name (v ∷ []); push w)
          vs
          (Machine.unary exec name (values vs) now)
  unfolding pop
  unary-Sound name [] r = tt
  unary-Sound name (v ∷ vs) r =
      create-push-Sound exec env₀ rt₀ function name (v ∷ []) (with_stack s vs)
        (IsReady-tail function s v vs r)

  pub binary-Sound :
      (name : OpName) (vs : List Value)
      → Ready vs
      → Agrees
          (do y ← pop; x ← pop; w ← create name (x ∷ y ∷ []); push w)
          vs
          (Machine.binary exec name (values vs) now)
  unfolding pop
  binary-Sound name [] r = tt
  binary-Sound name (y ∷ []) r = tt
  binary-Sound name (y ∷ x ∷ vs) r =
      create-push-Sound exec env₀ rt₀ function name (x ∷ y ∷ []) (with_stack s vs)
        (IsReady-tail function s x vs (IsReady-tail function s y (x ∷ vs) r))

  pub contains-Sound :
      (name : OpName) (vs : List Value)
      → Ready vs
      → Agrees
          (do c ← pop; x ← pop; w ← create name (c ∷ x ∷ []); push w)
          vs
          (Machine.contains exec name (values vs) now)
  unfolding pop
  contains-Sound name [] r = tt
  contains-Sound name (c ∷ []) r = tt
  contains-Sound name (c ∷ x ∷ vs) r =
      create-push-Sound exec env₀ rt₀ function name (c ∷ x ∷ []) (with_stack s vs)
        (IsReady-tail function s x vs (IsReady-tail function s c (x ∷ vs) r))

  pub store-Sound :
      (name : OpName) (vs : List Value)
      → Ready vs
      → Agrees (do v ← pop; create_void name (v ∷ [])) vs (Machine.store exec name (values vs) now)
  unfolding pop
  store-Sound name [] r = tt
  store-Sound name (v ∷ vs) r =
      create_void-Sound exec env₀ rt₀ function name (v ∷ []) (with_stack s vs)
        (IsReady-tail function s v vs r)

  pub store_item-Sound :
      (vs : List Value)
      → Ready vs
      → Agrees
          (do i ← pop; c ← pop; x ← pop; create_void OpName.store_subscr (c ∷ i ∷ x ∷ []))
          vs
          (Machine.store_item exec (values vs) now)
  unfolding pop
  store_item-Sound [] r = tt
  store_item-Sound (i ∷ []) r = tt
  store_item-Sound (i ∷ c ∷ []) r = tt
  store_item-Sound (i ∷ c ∷ x ∷ vs) r =
      create_void-Sound exec env₀ rt₀ function OpName.store_subscr (c ∷ i ∷ x ∷ [])
        (with_stack s vs)
        (IsReady-tail function s x vs
          (IsReady-tail function s c (x ∷ vs) (IsReady-tail function s i (c ∷ x ∷ vs) r)))

  get_elem?-map :
      (vs : List Value) (i : ℕ)
      → get_elem? (values vs) i
        ≡ elim (get_elem? vs i) [ none ↦ none | some v ↦ some ((outcome exec env₀ rt₀ s).0 v) ]
  get_elem?-map [] i = refl
  get_elem?-map (v ∷ vs) zero = refl
  get_elem?-map (v ∷ vs) (suc i) = get_elem?-map vs i

  values-some :
      (vs : List Value) (i : ℕ) {v : Value}
      → get_elem? vs i ≡ some v
      → get_elem? (values vs) i ≡ some ((outcome exec env₀ rt₀ s).0 v)
  values-some vs i e = rw (get_elem?-map vs i, e)

  values_none : (vs : List Value) (i : ℕ) → get_elem? vs i ≡ none → get_elem? (values vs) i ≡ none
  values_none vs i e = rw (get_elem?-map vs i, e)

  pub add_to-Sound :
      (name : OpName) (i : ℕ) (vs : List Value)
      → Ready vs
      → Agrees
          (do x ← pop; c ← stack_at (pos (suc i)); create_void name (c ∷ x ∷ []))
          vs
          (Machine.add_to exec name i (values vs) now)
  unfolding pop
  add_to-Sound name i [] r = tt
  add_to-Sound name i (x ∷ vs) r = elim (Option-cases (get_elem? vs i)) [
    | inl e ↦ rw (values_none vs i e, stack_at_none i (with_stack s vs) e) tt
    | inr (c, e) ↦
        rw (values-some vs i e, stack_at-some i (with_stack s vs) e)
          (create_void-Sound exec env₀ rt₀ function name (c ∷ x ∷ []) (with_stack s vs)
            (IsReady-tail function s x vs r))
  ]

  pub add_pair-Sound :
      (i : ℕ) (vs : List Value)
      → Ready vs
      → Agrees
          (do
            x ← pop
            k ← pop
            c ← stack_at (pos (suc i))
            create_void OpName.map_add (c ∷ k ∷ x ∷ []))
          vs
          (Machine.add_pair exec i (values vs) now)
  unfolding pop
  add_pair-Sound i [] r = tt
  add_pair-Sound i (x ∷ []) r = tt
  add_pair-Sound i (x ∷ k ∷ vs) r = elim (Option-cases (get_elem? vs i)) [
    | inl e ↦ rw (values_none vs i e, stack_at_none i (with_stack s vs) e) tt
    | inr (c, e) ↦
        rw (values-some vs i e, stack_at-some i (with_stack s vs) e)
          (create_void-Sound exec env₀ rt₀ function OpName.map_add (c ∷ k ∷ x ∷ [])
            (with_stack s vs) (IsReady-tail function s k vs (IsReady-tail function s x (k ∷ vs) r)))
  ]

  All-get_elem? :
      (n : ℕ) (vs : List Value) (i : ℕ) {v : Value}
      → All (λ w. w < n) vs
      → get_elem? vs i ≡ some v
      → v < n
  All-get_elem? n [] i h e = cc
  All-get_elem? n (w ∷ vs) zero h e = let first : w < n = h.0 in ground arith
  All-get_elem? n (w ∷ vs) (suc i) h e = All-get_elem? n vs i h.1 e

  pub copy-Sound :
      (i : ℕ) (vs : List Value)
      → Ready vs
      → Agrees (do v ← stack_at (pos (suc i)); push v) vs (Machine.copy exec i (values vs) now)
  unfolding push
  copy-Sound i vs r = elim (Option-cases (get_elem? vs i)) [
    | inl e ↦ rw (values_none vs i e, stack_at_none i (with_stack s vs) e) tt
    | inr (c, e) ↦
        rw (values-some vs i e, stack_at-some i (with_stack s vs) e)
          (
            refl,
            record {
              placed = r.placed;
              below = (All-get_elem? s.next_value vs i r.below e, r.below);
              no_targets = r.no_targets;
              mode = r.mode;
            },
          )
  ]

  values-set :
      (vs : List Value) (i : ℕ) (v : Value)
      → values (set vs i v) ≡ set (values vs) i ((outcome exec env₀ rt₀ s).0 v)
  values-set [] i v = refl
  values-set (w ∷ vs) zero v = refl
  values-set (w ∷ vs) (suc i) v = ap (λ t. (outcome exec env₀ rt₀ s).0 w ∷ t) (values-set vs i v)

  All-set :
      (n : ℕ) (vs : List Value) (i : ℕ) (v : Value)
      → All (λ w. w < n) vs
      → v < n
      → All (λ w. w < n) (set vs i v)
  All-set n [] i v h k = tt
  All-set n (w ∷ vs) zero v h k = (k, h.1)
  All-set n (w ∷ vs) (suc i) v h k = (h.0, All-set n vs i v h.1 k)

  pub swap-Sound :
      (i : ℕ) (vs : List Value)
      → Ready vs
      → Agrees (swap_stack (pos (suc i))) vs (Machine.exchange exec i (values vs) now)
  unfolding swap_stack top
  swap-Sound i [] r = tt
  swap-Sound i (x ∷ vs) r = elim (Option-cases (get_elem? (x ∷ vs) i)) [
    | inl e ↦ rw (values_none (x ∷ vs) i e, stack_at_none i (with_stack s (x ∷ vs)) e) tt
    | inr (c, e) ↦
        rw (values-some (x ∷ vs) i e, stack_at-some i (with_stack s (x ∷ vs)) e)
          (
            (λ j. record {
              stack =
                  (values-set (set (x ∷ vs) i x) 0 c
                      ∙ ap (λ t. set t 0 ((outcome exec env₀ rt₀ s).0 c)) (values-set (x ∷ vs) i x))
                    j;
              rt = now;
            }),
            record {
              placed = r.placed;
              below =
                  All-set s.next_value (set (x ∷ vs) i x) 0 c
                    (All-set s.next_value (x ∷ vs) i x r.below r.below.0)
                    (All-get_elem? s.next_value (x ∷ vs) i r.below e);
              no_targets = r.no_targets;
              mode = r.mode;
            },
          )
  ]

  pub discard-Sound :
      (vs : List Value)
      → Ready vs
      → Agrees pop_top_codegen vs (Machine.discard exec (values vs) now)
  unfolding pop_top_codegen
  discard-Sound [] r = tt
  discard-Sound (v ∷ vs) r = (refl, IsReady-tail function s v vs r)
