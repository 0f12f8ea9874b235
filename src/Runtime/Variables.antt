-- ===== src/Runtime/Variables.antt =====
-- Variables of a module and exact reference counts, for memory_runtime.cpp.
use mathlib.Core.Path.{subst}
use text.Mathlib.Text.{◌==◌ as str_eq}
use pycompile.Base.{
  ℕ, ◌+◌, ◌≤◌, ◌≡◌, refl, sym, List, [], ◌∷◌, ◌++◌, Option, none, some, String, arith, Bool-cases,
  Option-cases, inl, inr,
}
use pycompile.Runtime.Heap.{
  Addr, Heap, cell_at, put, is_immortal, size, Released, done, release, incref,
}
use pycompile.Runtime.Balance.{
  count, heap_count, IsExact, IsBalanced, HasRoom, next_count_lem, count-append,
}
use pycompile.Runtime.Release.{
  exact_none, exact_at, count_self, count_other, recount-IsBalanced, IsReleased, release-IsBalanced,
}
use pycompile.Runtime.State.{
  Scope, State, Exception, Outcome, ok, thrown, Run, and_then, pure, find, assign, with_released,
  with_heap, decref, add_ref,
}
use pycompile.Runtime.Memory.{load_fast, store_name}

abbrev pub values : Scope → List Addr
values [] = []
values ((n, a) ∷ rest) = a ∷ values rest

-- A state at module level: there is one scope.
abbrev pub module_state : Heap → Scope → Scope → State
module_state h locals funcs = record { heap = h; scopes = locals ∷ []; builtin_funcs = funcs }

-- The same references in another order.
pub IsBalanced-count :
    (h : Heap) (xs ys : List Addr)
    → ((b : Addr) → count b xs ≡ count b ys)
    → IsBalanced h xs
    → IsBalanced h ys
IsBalanced-count h xs ys e bal b ge =
    subst (λ n. IsExact (cell_at h b) (n + heap_count b h)) (e b) (bal b ge)

abbrev old_count : Addr → Option Addr → ℕ
old_count b none = 0
old_count b (some old) = count b (old ∷ [])

count-assign :
    (b : Addr) (name : String) (value : Addr) (locals : Scope)
    → count b (values (assign name value locals)) + old_count b (find name locals)
      ≡ count b (value ∷ values locals)
count-assign b name value [] = omega arith
count-assign b name value ((n, a) ∷ rest) = elim (Bool-cases (str_eq n name)) [
  | inl e ↦ rw e (omega arith)
  | inr e ↦ rw e (omega (arith, count-assign b name value rest))
]

count-find :
    (a : Addr) (name : String) (locals : Scope)
    → find name locals ≡ some a
    → 1 ≤ count a (values locals)
count-find a name [] e = absurd (cc e)
count-find a name ((n, b) ∷ rest) e = elim (Bool-cases (str_eq n name)) [
  | inl f ↦ (let same = rw f at e in ground arith)
  | inr f ↦ (let rest_count = count-find a name rest (rw f at e) in omega arith)
]

-- The references before and after an assignment.
new_count :
    (b : Addr) (name : String) (value : Addr) (locals : Scope) (more : List Addr)
    → find name locals ≡ none
    → count b (value ∷ (values locals ++ more))
      ≡ count b (values (assign name value locals) ++ more)
new_count b name value locals more e =
    let total = rw e at (count-assign b name value locals) in
    omega (
      arith,
      count-append b (values locals) more,
      count-append b (values (assign name value locals)) more,
    )

replaced_count :
    (b : Addr) (name : String) (value old : Addr) (locals : Scope) (more : List Addr)
    → find name locals ≡ some old
    → count b (value ∷ (values locals ++ more))
      ≡ count b (old ∷ (values (assign name value locals) ++ more))
replaced_count b name value old locals more e =
    let total = rw e at (count-assign b name value locals) in
    omega (
      arith,
      count-append b (values locals) more,
      count-append b (values (assign name value locals)) more,
    )

-- The operation returns, in a state of which `Q` holds.
abbrev pub Returns : {A : Type 0} → (A → State → Type 0) → Outcome A → Type 0
Returns Q (ok a s) = Q a s
Returns Q _ = ⊥

after_release :
    (r : Released) (roots : List Addr) (s : State) (Q : State → Type 0) (k : Run (Unit {0}))
    → IsReleased r roots
    → ((h : Heap) → IsBalanced h roots → Returns (λ _. Q) (k (record s { heap = h })))
    → Returns (λ _. Q) (and_then (with_released r s) (λ _. k))
after_release (done h) roots s Q k x f = f h x
after_release _ roots s Q k x f = absurd x

-- Assignment to a name at module level, when the counts are exact and the caller has a reference to
-- the value: it returns, takes over that reference, gives up the one to the old value, and leaves
-- the counts exact for the new scope.
pub store_name-IsBalanced :
    (name : String) (value : Addr) (h : Heap) (locals funcs : Scope) (more : List Addr)
    → IsBalanced h (value ∷ (values locals ++ more))
    → Returns
        (λ _ s.
          (s.scopes ≡ assign name value locals ∷ [])
          × IsBalanced s.heap (values (assign name value locals) ++ more))
        (store_name name value (module_state h locals funcs))
unfolding store_name decref
store_name-IsBalanced name value h locals funcs more bal = elim (Option-cases (find name locals)) [
  | inl e ↦ rw e (
    refl,
    IsBalanced-count h (value ∷ (values locals ++ more)) _
        (λ b. new_count b name value locals more e) bal,
  )
  | inr (old, e) ↦ rw e (
      after_release (release (1 + size h) (old ∷ []) h) (values (assign name value locals) ++ more)
        (module_state h locals funcs) _ _
        (release-IsBalanced (1 + size h) (old ∷ []) (values (assign name value locals) ++ more) h
          (omega arith)
          (IsBalanced-count h (value ∷ (values locals ++ more))
            (old ∷ (values (assign name value locals) ++ more))
            (λ b. replaced_count b name value old locals more e) bal))
        (λ h' x. (refl, x)))
]

-- A new reference to an object that has one already, when its count can grow.
pub incref-IsBalanced :
    (a : Addr) (h : Heap) (roots : List Addr) (s : State) (C : Outcome Addr → Type 0)
    → 1 ≤ count a roots + heap_count a h
    → HasRoom 1 h
    → IsBalanced h roots
    → ((h' : Heap) → IsBalanced h' (a ∷ roots) → C (ok a (record s { heap = h' })))
    → C (and_then (with_heap (incref a h) s) (λ _. pure a))
unfolding incref
incref-IsBalanced a h roots s C held room bal k = elim (Bool-cases (is_immortal a)) [
  | inl low ↦ rw low (
      k h (λ b ge.
        subst (λ n. IsExact (cell_at h b) (n + heap_count b h))
          (sym (count_other b a roots (ground arith))) (bal b ge)))
  | inr high ↦ elim (Option-cases (cell_at h a)) [
    | inl e ↦
        (let gone = exact_none _ (cell_at h a) e (bal a (ground arith)) in absurd (omega arith))
    | inr (c, e) ↦
        (let live = exact_at a _ h c e (bal a (ground arith)) in
          let fits = rw e at (room a) in
          let counted = next_count_lem c.refs fits in
          rw (high, e, counted)
            (k (put h a (some (record c { refs = c.refs + 1 }))) (
              recount-IsBalanced a roots (a ∷ roots) h c (c.refs + 1) e
                (let same = live.0 in omega (arith, count_self a roots)) (omega arith) fits
                (λ b ne. sym (count_other b a roots ne)) bal)))
  ]
]

-- What reading a local should come to, by whether it is bound.
abbrev pub Loads : Heap → Scope → Scope → List Addr → Option Addr → Outcome Addr → Type 0
Loads h locals funcs more (some a) r =
    Returns
      (λ b s. (b ≡ a) × (s.scopes ≡ locals ∷ []) × IsBalanced s.heap (a ∷ (values locals ++ more)))
      r
Loads h locals funcs more none (thrown (Exception.name_error message) s) =
    s ≡ module_state h locals funcs
Loads h locals funcs more none _ = ⊥

-- Reading a local, when there is one scope, the counts are exact and each can grow by one: if it is
-- bound, its value is returned with one more counted reference; if not, a NameError is raised and
-- nothing changes.
pub load_fast-IsBalanced :
    (name : String) (h : Heap) (locals funcs : Scope) (more : List Addr)
    → HasRoom 1 h
    → IsBalanced h (values locals ++ more)
    → Loads h locals funcs more (find name locals) (load_fast name (module_state h locals funcs))
unfolding load_fast add_ref
load_fast-IsBalanced name h locals funcs more room bal = elim (Option-cases (find name locals)) [
  | inl e ↦ rw e refl
  | inr (a, e) ↦ rw e (
      incref-IsBalanced a h (values locals ++ more) (module_state h locals funcs)
        (Returns λ b s.
          (b ≡ a) × (s.scopes ≡ locals ∷ []) × IsBalanced s.heap (a ∷ (values locals ++ more)))
        (let held = count-find a name locals e in
          omega (arith, count-append a (values locals) more))
        room bal (λ h' x. (refl, refl, x)))
]
