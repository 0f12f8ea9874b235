-- ===== src/Codegen/Quirks.antt =====
-- Two translations of memory_codegen.cpp: LOAD_CONST of None at module level, and
-- STORE_FAST_LOAD_FAST.
use pycompile.Base.{ℕ, ◌≡◌, Bool, refl, false, List, [], ◌∷◌, Option, String}
use pycompile.Base.Assoc.{lookup}
use pycompile.Bytecode.{Opcode, Primitive, ArgvalType, CodeInfo, Argval, instr, Instructions, cons}
use pycompile.Codegen.State.{Gen, Error, State, err, pop, pure, want_str}
use pycompile.Codegen.Memory.{
  load_none_codegen, store_name_codegen, str_at, store_fast_load_fast, store_fast_load_fast_codegen,
}
use pycompile.Codegen.Driver.{dispatch}
use pycompile.Codegen.Module.{is_return, enter_offset, load_const_codegen, build_instructions}

-- A state at module level, with an empty stack and no jump targets.
abbrev pub at_module : State → State
at_module s = record s { is_function = false; stack = []; offset_to_block = [] }

-- At module level, with no jump target about and an empty stack, assigning None to a name pops an
-- empty vector, whatever the name.
pub build_instructions-none_at_module :
    (info : CodeInfo) (repr repr' name : String) (o o' : ℕ) (type type' : ArgvalType)
    (l l' : Option ℕ) (starts starts' : Bool) (rest : Instructions) (s : State)
    → build_instructions info false
        (cons
          (instr o Opcode.load_const repr l starts type Argval.none)
          (cons (instr o' Opcode.store_name repr' l' starts' type' (Argval.str name)) rest))
        (at_module s)
      ≡ err Error.undefined
unfolding build_instructions enter_offset dispatch load_const_codegen load_none_codegen
    store_name_codegen pop want_str lookup is_return
build_instructions-none_at_module info repr repr' name o o' type type' l l' starts starts' rest s =
    refl

-- STORE_FAST_LOAD_FAST never loads: with another second name it does the same.
pub dispatch-store_fast_load_fast :
    (info : CodeInfo) (repr stored loaded other : String) (more : List Primitive) (s : State)
    → dispatch Opcode.store_fast_load_fast repr info
        (Argval.tuple (Primitive.str stored ∷ Primitive.str loaded ∷ more))
        (pure tt)
        s
      ≡ dispatch Opcode.store_fast_load_fast repr info
          (Argval.tuple (Primitive.str stored ∷ Primitive.str other ∷ more))
          (pure tt)
          s
unfolding dispatch store_fast_load_fast_codegen store_fast_load_fast str_at
dispatch-store_fast_load_fast info repr stored loaded other more s = refl

pub dispatch-argrepr :
    (info : CodeInfo) (repr other : String) (arg : Argval) (constant : Gen (Unit {0})) (s : State)
    → (dispatch Opcode.load_global repr info arg constant s
        ≡ dispatch Opcode.load_global other info arg constant s)
      × (dispatch Opcode.load_attr repr info arg constant s
          ≡ dispatch Opcode.load_attr other info arg constant s)
unfolding dispatch
dispatch-argrepr info repr other arg constant s = (refl, refl)
