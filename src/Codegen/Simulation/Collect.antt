-- ===== src/Codegen/Simulation/Collect.antt =====
-- The shapes that take a counted number of values off the stack: the BUILD_ instructions and CALL.
use mathlib.Core.List.{reverse, reverse-cons, append_assoc, append-nil, map-append}
use pycompile.Base.{
  ℕ, zero, suc, ◌≤◌, ◌<◌, ◌≡◌, refl, ap, ◌∙◌, Bool, List, [], ◌∷◌, ◌++◌, map, All, length,
  length-map, take, drop, leb, arith, Bool-cases, inl, inr,
}
use pycompile.Pyir.{Value, OpName}
use pycompile.Codegen.State.{Error, State, ok, err, ◌>>=◌, push, pop, pop_loop, create}
use pycompile.Codegen.Simulation.Machine
use pycompile.Codegen.Simulation.Machine.{Machine}
use pycompile.Codegen.Simulation.Ready.{IsReady, outcome, Sound, create-push-Sound}
use pycompile.Codegen.Simulation.Shapes.{with_stack, IsReady-tail}

-- The loop takes the topmost values in the order in which they were pushed.
pub pop_loop_enough :
    (n : ℕ) (vs parts : List Value) (s : State)
    → n ≤ length vs
    → pop_loop n parts (with_stack s vs)
      ≡ ok (reverse (take n vs) ++ parts) (with_stack s (drop n vs))
unfolding pop_loop
pop_loop_enough zero vs parts s h = refl
pop_loop_enough (suc n) [] parts s h = absurd (omega arith)
pop_loop_enough (suc n) (v ∷ vs) parts s h =
    rw (reverse-cons, append_assoc) (pop_loop_enough n vs (v ∷ parts) s (omega arith))

pub pop_loop_short :
    (n : ℕ) (vs parts : List Value) (s : State)
    → length vs < n
    → pop_loop n parts (with_stack s vs) ≡ err Error.undefined
unfolding pop_loop
pop_loop_short zero vs parts s h = absurd (omega arith)
pop_loop_short (suc n) [] parts s h = refl
pop_loop_short (suc n) (v ∷ vs) parts s h = pop_loop_short n vs (v ∷ parts) s (omega arith)

module _ {ℓ κ} {A : Type ℓ} {B : Type κ} (f : A → B) where
  map-take : (n : ℕ) (xs : List A) → map f (take n xs) ≡ take n (map f xs)
  map-take zero xs = refl
  map-take (suc n) [] = refl
  map-take (suc n) (x ∷ xs) = ap (λ ys. f x ∷ ys) (map-take n xs)

  map-drop : (n : ℕ) (xs : List A) → map f (drop n xs) ≡ drop n (map f xs)
  map-drop zero xs = refl
  map-drop (suc n) [] = refl
  map-drop (suc n) (x ∷ xs) = map-drop n xs

  map-reverse : (xs : List A) → map f (reverse xs) ≡ reverse (map f xs)
  map-reverse [] = refl
  map-reverse (x ∷ xs) = rw (reverse-cons, reverse-cons, map-append, map-reverse xs)

All-drop : (m n : ℕ) (vs : List Value) → All (λ v. v < m) vs → All (λ v. v < m) (drop n vs)
All-drop m zero vs h = h
All-drop m (suc n) [] h = tt
All-drop m (suc n) (v ∷ vs) h = All-drop m n vs h.1

module _ {V S : Type 0} (exec : OpName → List V → S → V × S) (env₀ : Value → V) (rt₀ : S)
    (function : Bool) (s : State) where
  abbrev values : List Value → List V
  values vs = map (outcome exec env₀ rt₀ s).0 vs

  IsReady-drop :
      (n : ℕ) (vs : List Value)
      → IsReady function (with_stack s vs)
      → IsReady function (with_stack s (drop n vs))
  IsReady-drop n vs r = record {
    placed = r.placed;
    below = All-drop s.next_value n vs r.below;
    no_targets = r.no_targets;
    mode = r.mode;
  }

  values-collected :
      (n : ℕ) (vs : List Value) → values (reverse (take n vs) ++ []) ≡ reverse (take n (values vs))
  values-collected n vs =
      ap values (append-nil (reverse (take n vs)))
      ∙ map-reverse (outcome exec env₀ rt₀ s).0 (take n vs)
      ∙ ap reverse (map-take (outcome exec env₀ rt₀ s).0 n vs)

  pub collect-Sound :
      (name : OpName) (n : ℕ) (vs : List Value)
      → IsReady function (with_stack s vs)
      → Sound exec env₀ rt₀ function
          ((do parts ← pop_loop n []; w ← create name parts; push w) (with_stack s vs))
          (Machine.collect exec name n (values vs) (outcome exec env₀ rt₀ s).1)
  collect-Sound name n vs r = elim (Bool-cases (leb n (length vs))) [
    | inl fits ↦
        rw
          (
            length-map (outcome exec env₀ rt₀ s).0 vs,
            fits,
            pop_loop_enough n vs [] s (ground arith),
            ← values-collected n vs,
            ← map-drop (outcome exec env₀ rt₀ s).0 n vs,
          )
          (create-push-Sound exec env₀ rt₀ function name (reverse (take n vs) ++ [])
            (with_stack s (drop n vs)) (IsReady-drop n vs r))
    | inr short ↦
        rw
          (
            length-map (outcome exec env₀ rt₀ s).0 vs,
            short,
            pop_loop_short n vs [] s (ground arith),
          )
          tt
  ]

  call_rest-Sound :
      (args vs : List Value)
      → IsReady function (with_stack s vs)
      → Sound exec env₀ rt₀ function
          ((do _ ← pop; callee ← pop; w ← create OpName.call (callee ∷ args); push w)
            (with_stack s vs))
          (Machine.call_on exec (values args) (values vs) (outcome exec env₀ rt₀ s).1)
  unfolding pop
  call_rest-Sound args [] r = tt
  call_rest-Sound args (x ∷ []) r = tt
  call_rest-Sound args (x ∷ callee ∷ vs) r =
      create-push-Sound exec env₀ rt₀ function OpName.call (callee ∷ args) (with_stack s vs)
        (IsReady-tail function s callee vs (IsReady-tail function s x (callee ∷ vs) r))

  pub call-Sound :
      (n : ℕ) (vs : List Value)
      → IsReady function (with_stack s vs)
      → Sound exec env₀ rt₀ function
          ((do
            args ← pop_loop n []
            _ ← pop
            callee ← pop
            w ← create OpName.call (callee ∷ args)
            push w)
            (with_stack s vs))
          (Machine.call exec n (values vs) (outcome exec env₀ rt₀ s).1)
  call-Sound n vs r = elim (Bool-cases (leb n (length vs))) [
    | inl fits ↦
        rw
          (
            length-map (outcome exec env₀ rt₀ s).0 vs,
            fits,
            pop_loop_enough n vs [] s (ground arith),
            ← values-collected n vs,
            ← map-drop (outcome exec env₀ rt₀ s).0 n vs,
          )
          (call_rest-Sound (reverse (take n vs) ++ []) (drop n vs) (IsReady-drop n vs r))
    | inr short ↦
        rw
          (
            length-map (outcome exec env₀ rt₀ s).0 vs,
            short,
            pop_loop_short n vs [] s (ground arith),
          )
          tt
  ]
