-- ===== src/Codegen/Functions.antt =====
-- pycompile/src/conversion/function_codegen.cpp.
use pycompile.Base.{List, [], ◌∷◌, Option, none, some, map, length, take, ◌==◌, if◌then◌else◌}
use pycompile.Base.Assoc.{lookup, erase}
use pycompile.Bytecode.{Argval}
use pycompile.Pyir.{Value, OpName, Op, Block, Func}
use pycompile.Codegen.State.{
  Error, State, Gen, ◌>>=◌, ◌>>◌, pure, throw, get, modify, push, pop, pop_parts, want_int, create,
  create_void, block_of,
}

-- The operations but the one whose result is `v`.
unfoldable pub without : Value → List Op → List Op
without v [] = []
without v (op ∷ ops) = elim op.result [
  | none ↦ op ∷ without v ops
  | some r ↦ if r == v then without v ops else op ∷ without v ops
]

abbrev pub erase_from_block : Value → Block → Block
erase_from_block v b = record b { ops = without v b.ops }

abbrev pub erase_from_func : Value → Func → Func
erase_from_func v fn = record fn { blocks = map (erase_from_block v) fn.blocks }

-- `value.getDefiningOp()->erase()`. The insertion point stays in front of the same operation.
unfoldable pub erase_defining_op : Value → Gen (Unit {0})
unfolding without block_of
erase_defining_op v = modify (λ s. record s {
  funcs = map (erase_from_func v) s.funcs;
  at_pos = elim (block_of s.at_fn s.at_block s.funcs) [
    | none ↦ s.at_pos
    | some b ↦ length (without v (take s.at_pos b.ops))
  ];
})

unfoldable pub make_function_codegen : Gen (Unit {0})
unfolding push pop create erase_defining_op lookup erase
make_function_codegen = do
  sentinel ← pop
  s ← get
  fn_name ← elim (lookup sentinel s.pending_functions) [
    | none ↦ throw Error.out_of_range
    | some name ↦ pure name
  ]
  modify (λ (t : State). record t { pending_functions = erase sentinel t.pending_functions })
  erase_defining_op sentinel
  v ← create (OpName.make_function fn_name) []
  push v

unfoldable pub call_func_codegen : Argval → Gen (Unit {0})
unfolding push pop pop_parts want_int create
call_func_codegen argval = do
  argc ← want_int (Error.compile_error "CALL must have an int argval") argval
  args ← pop_parts argc
  _ ← pop
  callee ← pop
  v ← create OpName.call (callee ∷ args)
  push v

-- `if (!meta.stack.empty()) { retVal = meta.stack.back(); meta.stack.pop_back(); }`
unfoldable pub pop_optional : Gen (Option Value)
pop_optional s = elim s.stack [
  | [] ↦ pure none s
  | v ∷ vs ↦ pure (some v) (record s { stack = vs })
]

unfoldable pub return_value_codegen : Gen (Unit {0})
unfolding pop_optional create_void
return_value_codegen = do
  ret_val ← pop_optional
  s ← get
  create_void (if s.is_function then OpName.pop_scope else OpName.destroy_module) []
  elim ret_val [
    | none ↦ create_void OpName.func_return []
    | some v ↦ create_void OpName.return_value (v ∷ [])
  ]
