-- ===== src/Codegen/Control.antt =====
-- pycompile/src/conversion/control_flow_codegen.cpp.
use mathlib.Core.List.{reverse}
use pycompile.Base.{ℕ, Bool, true, false, List, [], ◌∷◌, none, some, if◌then◌else◌}
use pycompile.Base.Int.{as_size, ℤ}
use pycompile.Base.Assoc.{lookup}
use pycompile.Bytecode.{Argval}
use pycompile.Pyir.{Value, OpName, Successor}
use pycompile.Codegen.State.{
  Error, Gen, ◌>>=◌, ◌>>◌, pure, throw, push, pop, top, want_int, create, create_void,
  create_branch, add_block, add_argument, ensure_arguments, set_insertion_start, stack_values,
}

abbrev pub successor : ℕ → List Value → Successor
successor b vs = record { block = b; args = vs }

-- `meta.offsetToBlock.at(*target)`
unfoldable pub block_at : ℤ → Gen ℕ
unfolding lookup as_size
block_at target s = elim (lookup (as_size target) s.offset_to_block) [
  | none ↦ throw Error.out_of_range s
  | some b ↦ pure b s
]

unfoldable pub jump_forward_codegen : Argval → Gen (Unit {0})
unfolding want_int block_at create_branch
jump_forward_codegen argval = do
  target ← want_int (Error.compile_error "JUMP_FORWARD must have an int argval") argval
  dest ← block_at target
  create_branch OpName.br [] (successor dest [] ∷ [])

unfoldable pub jump_backward_codegen : Argval → Gen (Unit {0})
unfolding want_int block_at create_branch stack_values ensure_arguments
jump_backward_codegen argval = do
  target ← want_int (Error.compile_error "JUMP_BACKWARD must have an int argval") argval
  dest ← block_at target
  branch_args ← stack_values
  ensure_arguments dest branch_args
  create_branch OpName.br [] (successor dest branch_args ∷ [])

unfoldable pub pop_jump_if_codegen : ℤ → Bool → Gen (Unit {0})
unfolding pop create block_at create_branch stack_values ensure_arguments add_block
    set_insertion_start
pop_jump_if_codegen target truthy = do
  cond ← pop
  i1_cond ← create OpName.is_truthy (cond ∷ [])
  if_block ← block_at target
  else_block ← add_block
  if_args ← stack_values
  ensure_arguments if_block if_args
  create_branch OpName.cond_br (i1_cond ∷ []) (
      if truthy
      then successor if_block if_args ∷ successor else_block [] ∷ []
      else successor else_block [] ∷ successor if_block if_args ∷ [])
  set_insertion_start else_block

unfoldable pub pop_jump_if_true_codegen : Argval → Gen (Unit {0})
unfolding want_int pop_jump_if_codegen
pop_jump_if_true_codegen argval = do
  target ← want_int (Error.compile_error "POP_JUMP_IF_TRUE must have an int argval") argval
  pop_jump_if_codegen target true

unfoldable pub pop_jump_if_false_codegen : Argval → Gen (Unit {0})
unfolding want_int pop_jump_if_codegen
pop_jump_if_false_codegen argval = do
  target ← want_int (Error.compile_error "POP_JUMP_IF_FALSE must have an int argval") argval
  pop_jump_if_codegen target false

unfoldable pub get_iter_codegen : Gen (Unit {0})
unfolding push pop create
get_iter_codegen = do container ← pop; v ← create OpName.get_iter (container ∷ []); push v

-- The stack without its last value, in the order of the vector.
unfoldable pub values_below_top : Gen (List Value)
values_below_top s = elim s.stack [ [] ↦ throw Error.undefined s | _ ∷ vs ↦ pure (reverse vs) s ]

unfoldable pub for_iter_codegen : Argval → Gen (Unit {0})
unfolding want_int top block_at add_block add_argument values_below_top ensure_arguments
    create_branch set_insertion_start push
for_iter_codegen argval = do
  target ← want_int (Error.compile_error "FOR_ITER must have an int argval") argval
  iterator ← top
  exit_block ← block_at target
  body_block ← add_block
  item ← add_argument body_block
  exit_args ← values_below_top
  ensure_arguments exit_block exit_args
  create_branch OpName.for_iter (iterator ∷ exit_args)
      (successor body_block [] ∷ successor exit_block [] ∷ [])
  set_insertion_start body_block
  push item

unfoldable pub pop_iter_codegen : Gen (Unit {0})
unfolding create_void
pop_iter_codegen = create_void OpName.pop_iter []
