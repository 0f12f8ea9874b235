-- ===== src/Codegen/Logical.antt =====
-- pycompile/src/conversion/logical_codegen.cpp.
use text.Mathlib.Text.{◌==◌ as str_eq}
use pycompile.Base.{[], ◌∷◌, String, if◌then◌else◌}
use pycompile.Pyir.{OpName}
use pycompile.Codegen.State.{Error, Gen, ◌>>=◌, ◌>>◌, pure, throw, push, pop, create}

-- `if (opStr.empty()) throw ...`
unfoldable pub require_nonempty : Error → String → Gen (Unit {0})
require_nonempty e op_str = if str_eq op_str "" then throw e else pure tt

unfoldable pub binary_op_codegen : String → Gen (Unit {0})
unfolding require_nonempty push pop create
binary_op_codegen op_str = do
  require_nonempty (Error.compile_error "BINARY_OP must have a string argval") op_str
  rhs ← pop
  lhs ← pop
  v ← create (OpName.binary_op op_str) (lhs ∷ rhs ∷ [])
  push v

unfoldable pub compare_op_codegen : String → Gen (Unit {0})
unfolding require_nonempty push pop create
compare_op_codegen op_str = do
  require_nonempty (Error.compile_error "COMPARE_OP must have a string argval") op_str
  rhs ← pop
  lhs ← pop
  v ← create (OpName.compare_op op_str) (lhs ∷ rhs ∷ [])
  push v

unfoldable pub contains_op_codegen : String → Gen (Unit {0})
unfolding require_nonempty push pop create
contains_op_codegen op_str = do
  require_nonempty (Error.compile_error "CONTAINS_OP must have a string argval") op_str
  container ← pop
  element ← pop
  v ← create (OpName.contains_op op_str) (container ∷ element ∷ [])
  push v

unfoldable pub to_bool_codegen : Gen (Unit {0})
unfolding push pop create
to_bool_codegen = do value ← pop; v ← create OpName.to_bool (value ∷ []); push v

unfoldable pub unary_not_codegen : Gen (Unit {0})
unfolding push pop create
unary_not_codegen = do value ← pop; v ← create OpName.unary_not (value ∷ []); push v

unfoldable pub unary_negative_codegen : Gen (Unit {0})
unfolding push pop create
unary_negative_codegen = do value ← pop; v ← create OpName.unary_negative (value ∷ []); push v

unfoldable pub unary_invert_codegen : Gen (Unit {0})
unfolding push pop create
unary_invert_codegen = do value ← pop; v ← create OpName.unary_invert (value ∷ []); push v

unfoldable pub format_simple_codegen : Gen (Unit {0})
unfolding push pop create
format_simple_codegen = do value ← pop; v ← create OpName.format_simple (value ∷ []); push v
