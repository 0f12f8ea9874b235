-- ===== src/Codegen/Tests.antt =====
-- The code generator on a small function: `def f(): x = 1 + None`, and a loop's jump.
use pycompile.Base.{
  ℕ, ◌≡◌, refl, true, false, List, [], ◌∷◌, none, some, length, get_elem?, ◌+◌, arith,
}
use pycompile.Base.Int.{pos, negsuc}
use pycompile.Bytecode.{
  Opcode, Primitive, ArgvalType, CodeInfo, Argval, instr, Instructions, nil, cons,
}
use pycompile.Pyir.{Value, OpName, Attr, Scalar}
use pycompile.Codegen.State.{Error, State, err, pure, block_of}
use pycompile.Codegen.Driver.{dispatch}
use pycompile.Codegen.Module.{empty_state, build_instructions, jump_blocks}
use pycompile.Codegen.Deref.{resolve_deref-names, name_or_undefined}
use pycompile.Codegen.Memory.{resolve_deref}
use pycompile.Codegen.Targets.{Reaches, any_ends_at, Extends, AreCovered, jump_blocks-covers}
use pycompile.Codegen.Quirks.{
  at_module, build_instructions-none_at_module, dispatch-store_fast_load_fast, dispatch-argrepr,
}
use pycompile.Codegen.Simulation.Machine.{run_machine, step}
use pycompile.Codegen.Simulation.Ready.{IsReady, denote, Sound}
use pycompile.Codegen.Simulation.Instructions.{dispatch-Sound}
use pycompile.Codegen.Simulation.Program.{build_instructions-Sound}

-- A runtime that numbers its values and lists its calls.
abbrev trace : OpName → List ℕ → List OpName → ℕ × List OpName
trace name args calls = (length args + 10, name ∷ calls)

abbrev start_env : Value → ℕ
start_env v = 0

abbrev no_calls : List OpName
no_calls = []

abbrev f_info : CodeInfo
f_info = record {
  code_name = "f";
  argcount = pos 0;
  freevars = "free" ∷ [];
  cellvars = "cell" ∷ [];
  varnames = "x" ∷ [];
  exception_table = [];
}

-- The code generator at the start of the function `f`.
abbrev f_start : State
f_start = record empty_state {
  is_function = true;
  funcs =
      record { name = "__pyfn_0_f"; params = []; blocks = record { args = []; ops = [] } ∷ [] }
      ∷ [];
}

f_start-IsReady : IsReady true f_start
unfolding block_of
f_start-IsReady = record { placed = omega arith; below = tt; no_targets = refl; mode = refl }

abbrev f_code : Instructions
f_code = cons (instr 0 Opcode.load_small_int "" none false ArgvalType.int (Argval.int (pos 1))) (
    cons (instr 2 Opcode.load_const "None" none false ArgvalType.none Argval.none) (
      cons (instr 4 Opcode.binary_op "+" none false ArgvalType.int (Argval.int (pos 0)))
        (cons (instr 8 Opcode.store_fast "x" none false ArgvalType.str (Argval.str "x")) nil)))

build_instructions-Sound_example :
    Sound trace start_env no_calls true
      (build_instructions f_info false f_code f_start)
      (run_machine trace f_info f_code (denote trace start_env no_calls f_start))
build_instructions-Sound_example =
    build_instructions-Sound trace start_env no_calls true f_info f_code f_start
      (tt, (refl, (tt, (tt, tt)))) f_start-IsReady

-- The machine does run it.
f_code_runs :
    run_machine trace f_info f_code (record { stack = []; rt = [] })
    ≡ some (record {
      stack = [];
      rt =
          OpName.store_fast "x"
          ∷ OpName.binary_op "+"
          ∷ OpName.load_const Attr.none
          ∷ OpName.load_const (Attr.scalar (Scalar.int (pos 1)))
          ∷ [];
    })
unfolding run_machine step
f_code_runs = refl

dispatch-Sound_example :
    Sound trace start_env no_calls true
      (dispatch Opcode.load_global "print + NULL" f_info (Argval.str "print") (pure tt) f_start)
      (step trace Opcode.load_global "print + NULL" f_info
        (Argval.str "print")
        (denote trace start_env no_calls f_start))
dispatch-Sound_example =
    dispatch-Sound trace start_env no_calls true f_info (pure tt) Opcode.load_global "print + NULL"
      (Argval.str "print") refl f_start f_start-IsReady

abbrev loop_code : Instructions
loop_code = cons (instr 0 Opcode.for_iter "to 8" none false ArgvalType.int (Argval.int (pos 8))) (
    cons (instr 4 Opcode.jump_backward "to 0" none false ArgvalType.int (Argval.int (pos 0)))
      (cons (instr 8 Opcode.end_for "" none false ArgvalType.none Argval.none) nil))

jump_blocks-covers_example :
    Reaches
      (λ s'. Extends (any_ends_at loop_code) f_start s' × AreCovered loop_code s')
      (jump_blocks loop_code f_start)
jump_blocks-covers_example = jump_blocks-covers loop_code f_start (
  record { name = "__pyfn_0_f"; params = []; blocks = record { args = []; ops = [] } ∷ [] },
  refl,
)

resolve_deref-names_example :
    ((i : ℕ)
      → resolve_deref f_info (pos i) f_start
        ≡ name_or_undefined (get_elem? ("x" ∷ "cell" ∷ "free" ∷ []) i) f_start)
    × ((n : ℕ) → resolve_deref f_info (negsuc n) f_start ≡ err Error.undefined)
resolve_deref-names_example = resolve_deref-names f_info f_start

build_instructions-none_at_module_example :
    build_instructions f_info false
      (cons
        (instr 0 Opcode.load_const "None" none false ArgvalType.none Argval.none)
        (cons (instr 2 Opcode.store_name "x" none false ArgvalType.str (Argval.str "x")) nil))
      (at_module empty_state)
    ≡ err Error.undefined
build_instructions-none_at_module_example =
    build_instructions-none_at_module f_info "None" "x" "x" 0 2 ArgvalType.none ArgvalType.str none
      none false false nil empty_state

dispatch-argrepr_example :
    (dispatch Opcode.load_global "x" f_info (Argval.str "x") (pure tt) f_start
      ≡ dispatch Opcode.load_global "x + NULL" f_info (Argval.str "x") (pure tt) f_start)
    × (dispatch Opcode.load_attr "x" f_info (Argval.str "x") (pure tt) f_start
        ≡ dispatch Opcode.load_attr "x + NULL" f_info (Argval.str "x") (pure tt) f_start)
dispatch-argrepr_example = dispatch-argrepr f_info "x" "x + NULL" (Argval.str "x") (pure tt) f_start

dispatch-store_fast_load_fast_example :
    dispatch Opcode.store_fast_load_fast "a, b" f_info
      (Argval.tuple (Primitive.str "a" ∷ Primitive.str "b" ∷ []))
      (pure tt)
      (record f_start { stack = 3 ∷ [] })
    ≡ dispatch Opcode.store_fast_load_fast "a, b" f_info
        (Argval.tuple (Primitive.str "a" ∷ Primitive.str "c" ∷ []))
        (pure tt)
        (record f_start { stack = 3 ∷ [] })
dispatch-store_fast_load_fast_example =
    dispatch-store_fast_load_fast f_info "a, b" "a" "b" "c" [] (record f_start { stack = 3 ∷ [] })
