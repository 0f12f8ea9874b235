-- ===== src/Runtime/Scopes.antt =====
-- The scopes of pystd/src/function_runtime.cpp and the locals of pystd/src/memory_runtime.cpp: what
-- a function stores, between the push of its scope and the pop.
use pycompile.Base.{◌≡◌, refl, List, [], ◌∷◌, some, String}
use pycompile.Runtime.Heap.{Addr}
use pycompile.Runtime.State.{Scope, State, ok, Run, and_then, ◌>>◌, pure, find, assign}
use pycompile.Runtime.Memory.{store_fast, load_fast, fast_value}
use pycompile.Runtime.Builtins.{bottom, pyir_push_scope, pyir_pop_scope}

-- Stores in the order of the list.
abbrev pub store_locals : List (String × Addr) → Run (Unit {0})
store_locals [] = pure tt
store_locals ((name, value) ∷ rest) = do store_fast name value; store_locals rest

-- What a scope holds after the stores.
abbrev assigned : List (String × Addr) → Scope → Scope
assigned [] locals = locals
assigned ((name, value) ∷ rest) locals = assigned rest (assign name value locals)

store_locals-assigned :
    (stores : List (String × Addr)) (locals : Scope) (outer : List Scope) (s : State)
    → s.scopes ≡ locals ∷ outer
    → store_locals stores s ≡ ok tt (record s { scopes = assigned stores locals ∷ outer })
unfolding store_fast
store_locals-assigned [] locals outer s e = rw e refl
store_locals-assigned ((name, value) ∷ rest) locals outer s e = rw e (
    store_locals-assigned rest (assign name value locals) outer
      (record s { scopes = assign name value locals ∷ outer }) refl)

-- In a scope that is pushed while there is a module scope, a local reads as the variable of that
-- name of the module's scope, with a new reference. After any stores to locals and a pop of the
-- scope, the whole state is as it was before the push: no other scope and no object has changed.
pub pyir_pop_scope-pyir_push_scope :
    (stores : List (String × Addr)) (name : String) (globals : Scope) (s : State)
    → bottom s.scopes ≡ some globals
    → (and_then (pyir_push_scope s) (λ _. load_fast name)
        ≡ fast_value name (find name globals) (record s { scopes = globals ∷ s.scopes }))
      × ((pyir_push_scope >> (store_locals stores >> pyir_pop_scope)) s ≡ ok tt s)
unfolding pyir_push_scope pyir_pop_scope load_fast
pyir_pop_scope-pyir_push_scope stores name globals s e = rw e (
  refl,
  rw (store_locals-assigned stores globals s.scopes (record s { scopes = globals ∷ s.scopes }) refl)
      refl,
)
