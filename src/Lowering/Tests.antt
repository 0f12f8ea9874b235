-- ===== src/Lowering/Tests.antt =====
-- Operations lowered in a module without symbols, with a runtime that counts its calls.
use pycompile.Base.{ℕ, suc, ◌+◌, ◌≡◌, refl, true, [], ◌∷◌, some, arith}
use pycompile.Base.Int.{pos}
use pycompile.Pyir.{OpName}
use pycompile.Lowering.Rewriter.{Built}
use pycompile.Lowering.Constants.{Hash}
use pycompile.Lowering.Patterns.{Library, lower, lower_for_iter}
use pycompile.Lowering.Machine.{Word, Arg, Machine, Runtime, run}
use pycompile.Lowering.Calls.{start, Makes}
use pycompile.Lowering.Meaning.{meaning}
use pycompile.Lowering.Refinement.{lower-Makes}
use pycompile.Lowering.Branches.{AfterBuilt, Continues, lower_for_iter-Continues}

-- Every call returns the object 7, and the world is the number of calls.
abbrev counting : Runtime ℕ ℕ
counting fn args calls = (Word.object 7, suc calls)

-- Value 0 is the object 10, value 1 the object 11, and so on.
abbrev objects : Machine ℕ ℕ
objects = record { env = λ v. Word.object (10 + v); memory = []; world = 0 }

-- Nothing of another dialect is lowered.
abbrev no_library : Library
no_library name vs succs r = Built.failure

abbrev no_hash : Hash
no_hash text = 0

lower-Makes_example :
    Makes counting true "pyir_call"
      (Arg.value (Word.object 10)
        ∷ Arg.items (some (Word.object 11) ∷ some (Word.object 12) ∷ [])
        ∷ Arg.value (Word.int (pos 2))
        ∷ [])
      3
      objects
      (lower no_library no_hash OpName.call (0 ∷ 1 ∷ 2 ∷ []) [] (start [] 3))
unfolding lower meaning
lower-Makes_example =
    lower-Makes counting no_library no_hash OpName.call (0 ∷ 1 ∷ 2 ∷ []) [] [] 3 objects
      (tt, (tt, (tt, tt))) (omega arith, (omega arith, (omega arith, tt))) tt

lower_for_iter-Continues_example :
    AfterBuilt counting
      (λ r.
        Continues counting
          (Word.object 7)
          1
          objects
          4
          5
          (1 ∷ [])
          (run counting r.symbols r.emitted objects))
      (lower_for_iter 0 (1 ∷ []) 4 5 (start [] 2))
lower_for_iter-Continues_example =
    lower_for_iter-Continues counting 0 (1 ∷ []) 4 5 [] 2 objects (omega arith) tt (omega arith, tt)
      tt

-- A load from a closure's cell has no pattern, `not in` is in no table, and "bool(" alone is cut to
-- less than nothing.
load_deref_fails :
    lower no_library no_hash (OpName.load_deref "x") [] [] (start [] 0) ≡ Built.failure
unfolding lower
load_deref_fails = refl

not_in_fails :
    lower no_library no_hash (OpName.contains_op "not in") (0 ∷ 1 ∷ []) [] (start [] 2)
    ≡ Built.failure
unfolding lower
not_in_fails = refl

bool_undefined :
    lower no_library no_hash (OpName.compare_op "bool(") (0 ∷ 1 ∷ []) [] (start [] 2)
    ≡ Built.undefined
unfolding lower
bool_undefined = refl
