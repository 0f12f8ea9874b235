-- ===== src/Runtime/Destroy.antt =====
-- `pyir_destroyModule` of pystd/src/builtin_runtime.cpp: the references of the module's scope and of
-- the builtin functions.
use mathlib.Core.Path.{subst}
use pycompile.Base.{
  ◌≡◌, refl, sym, Bool, true, false, List, [], ◌∷◌, ◌++◌, Option, none, some, if◌then◌else◌,
}
use pycompile.Runtime.Heap.{Addr, Cell, Heap, cell_at}
use pycompile.Runtime.Balance.{IsBalanced}
use pycompile.Runtime.State.{
  Scope, State, Exception, Outcome, ok, thrown, undefined, Run, and_then, ◌>>=◌, ◌>>◌, pure, throw,
  decref,
}
use pycompile.Runtime.Variables.{values, module_state, Returns}
use pycompile.Runtime.Subscripts.{after_decref, and_then_assoc}

abbrev is_some : Option Cell → Bool
is_some none = false
is_some (some c) = true

-- What `decref` returns, negated.
abbrev is_live : Addr → Run Bool
is_live a s = ok (is_some (cell_at s.heap a)) s

-- The loop over a scope. A pointer that is set to null is left out: the loops skip it.
unfoldable pub release_values : Scope → Run Scope
unfolding decref
release_values [] = pure []
release_values ((name, a) ∷ rest) = do
  decref a
  live ← is_live a
  kept ← release_values rest
  pure (if live then (name, a) ∷ kept else kept)

abbrev set_scopes : List Scope → Run (Unit {0})
set_scopes scopes s = ok tt (record s { scopes = scopes })

abbrev set_builtin_funcs : Scope → Run (Unit {0})
set_builtin_funcs funcs s = ok tt (record s { builtin_funcs = funcs })

-- `back()` of no scopes is undefined.
abbrev destroy_in : List Scope → Scope → Run (Unit {0})
destroy_in [] funcs = λ s. undefined
destroy_in (locals ∷ []) funcs = do
  kept ← release_values locals
  set_scopes (kept ∷ [])
  kept_funcs ← release_values funcs
  set_builtin_funcs kept_funcs
destroy_in (locals ∷ outer ∷ rest) funcs =
    throw (Exception.runtime_error "Exiting with dangling scope")

unfoldable pub pyir_destroy_module : Run (Unit {0})
unfolding release_values
pyir_destroy_module s = destroy_in s.scopes s.builtin_funcs s

after_values :
    {A : Type 0} (C : Outcome A → Type 0) (locals : Scope) (more : List Addr) (s : State)
    (k : Scope → Run A)
    → IsBalanced s.heap (values locals ++ more)
    → ((kept : Scope) (h : Heap) → IsBalanced h more → C (k kept (record s { heap = h })))
    → C (and_then (release_values locals s) k)
unfolding release_values
after_values C [] more s k bal f = f [] s.heap bal
after_values C ((name, a) ∷ rest) more s k bal f =
    let keep : Bool → Scope → Scope = λ live kept. if live then (name, a) ∷ kept else kept in
    let next : Run Scope =
      is_live a >>= λ live. release_values rest >>= λ kept. pure (keep live kept) in
    subst C (sym (and_then_assoc (decref a s) (λ _. next) k)) (
      after_decref C a (values rest ++ more) s (λ t. and_then (next t) k) bal
        λ h bal'.
          let live = is_some (cell_at h a) in
          let t : State = record s { heap = h } in
          subst C (sym (and_then_assoc (release_values rest t) (λ kept. pure (keep live kept)) k)) (
            after_values C rest more t (λ kept. k (keep live kept)) bal'
              λ kept h' bal''. f (keep live kept) h' bal''))

-- At module level, when the counts are exact, and the references of the module's variables and of
-- the builtin functions are counted: the module is destroyed without an exception or undefined
-- behaviour, and all these references are given up; the counts are exact for those that remain.
-- With another scope left, nothing is released and a runtime error is thrown.
pub pyir_destroy_module-IsBalanced :
    (locals funcs inner : Scope) (rest : List Scope) (more : List Addr) (h : Heap)
    → IsBalanced h (values locals ++ (values funcs ++ more))
    → Returns (λ _ t. IsBalanced t.heap more) (pyir_destroy_module (module_state h locals funcs))
      × (pyir_destroy_module
            (record { heap = h; scopes = inner ∷ locals ∷ rest; builtin_funcs = funcs })
          ≡ thrown
              (Exception.runtime_error "Exiting with dangling scope")
              (record { heap = h; scopes = inner ∷ locals ∷ rest; builtin_funcs = funcs }))
unfolding pyir_destroy_module
pyir_destroy_module-IsBalanced locals funcs inner rest more h bal = (
  after_values (Returns (λ _ t. IsBalanced t.heap more)) locals (values funcs ++ more)
      (module_state h locals funcs)
      (λ kept. set_scopes (kept ∷ []) >> (release_values funcs >>= set_builtin_funcs)) bal
      (λ kept h' bal'.
        after_values (Returns (λ _ t. IsBalanced t.heap more)) funcs more
          (module_state h' (kept) funcs) set_builtin_funcs bal' λ kept_funcs h'' bal''. bal''),
  refl,
)
