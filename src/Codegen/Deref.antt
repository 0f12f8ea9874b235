-- ===== src/Codegen/Deref.antt =====
-- The names of LOAD_DEREF and STORE_DEREF: `resolveDeref` of memory_codegen.cpp.
use pycompile.Base.{
  ℕ, zero, suc, ◌+◌, ◌-◌, ◌≡◌, refl, List, [], ◌∷◌, ◌++◌, Option, none, some, String, length,
  get_elem?, ltb, arith, if◌then◌else◌, Bool-cases, inl, inr,
}
use pycompile.Base.Int.{pos, negsuc}
use pycompile.Bytecode.{CodeInfo}
use pycompile.Codegen.State.{Error, State, Result, ok, err}
use pycompile.Codegen.Memory.{name_at, resolve_deref}

pub get_elem?-append {ℓ} :
    {A : Type ℓ} (xs ys : List A) (i : ℕ)
    → get_elem? (xs ++ ys) i
      ≡ (if ltb i (length xs) then get_elem? xs i else get_elem? ys (i - length xs))
get_elem?-append [] ys i = ground arith
get_elem?-append (x ∷ xs) ys zero = ground arith
get_elem?-append (x ∷ xs) ys (suc i) = ground (arith, get_elem?-append xs ys i)

-- The result of a lookup by `operator[]`.
abbrev pub name_or_undefined : Option String → State → Result String
name_or_undefined none s = err Error.undefined
name_or_undefined (some n) s = ok n s

name_at-pos :
    (names : List String) (i : ℕ) (s : State)
    → name_at names (pos i) s ≡ name_or_undefined (get_elem? names i) s
unfolding name_at
name_at-pos names i s = ground arith

name_at-negsuc :
    (names : List String) (n : ℕ) (s : State) → name_at names (negsuc n) s ≡ err Error.undefined
unfolding name_at
name_at-negsuc names n s = refl

sub-sub : (i a b : ℕ) → i - a - b ≡ i - (a + b)
sub-sub i a b = omega arith

-- An index names the variable at that place of the locals, the cells and the free variables in
-- this order, and an index beyond them, or below 0, is undefined behaviour.
pub resolve_deref-names :
    (info : CodeInfo) (s : State)
    → ((i : ℕ)
        → resolve_deref info (pos i) s
          ≡ name_or_undefined (get_elem? (info.varnames ++ (info.cellvars ++ info.freevars)) i) s)
      × ((n : ℕ) → resolve_deref info (negsuc n) s ≡ err Error.undefined)
unfolding resolve_deref
resolve_deref-names info s = (at, below)
  where
    at :
        (i : ℕ)
        → resolve_deref info (pos i) s
          ≡ name_or_undefined (get_elem? (info.varnames ++ (info.cellvars ++ info.freevars)) i) s
    at i =
        let a = length info.varnames in
        let b = length info.cellvars in
        rw
          (
            get_elem?-append info.varnames (info.cellvars ++ info.freevars) i,
            get_elem?-append info.cellvars info.freevars (i - a),
            sub-sub i a b,
          )
          (elim (Bool-cases (ltb i a)) [
            | inl e ↦ ground (arith, name_at-pos info.varnames i s)
            | inr e ↦ elim (Bool-cases (ltb i (a + b))) [
              | inl f ↦ ground (arith, name_at-pos info.cellvars (i - a) s)
              | inr f ↦ ground (arith, name_at-pos info.freevars (i - (a + b)) s)
            ]
          ])

    below : (n : ℕ) → resolve_deref info (negsuc n) s ≡ err Error.undefined
    below n = ground (arith, name_at-negsuc info.varnames n s)
