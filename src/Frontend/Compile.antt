-- ===== src/Frontend/Compile.antt =====
-- `compilePython` of pycompile/src/bytecode/bytecode.cpp: a list of source texts to modules.
use Prim.Native.String.{◌++◌ as str_append}
use pycompile.Base.{
  suc, ◌≡◌, refl, Bool, true, false, List, [], ◌∷◌, Option, none, some, String, ap, length, arith,
}
use pycompile.Bytecode.{ByteCodeModule}
use pycompile.Frontend.Python.{Python, Error, Decoded, ok, fail, ◌>>=◌}
use pycompile.Frontend.Decode.{depths, generate_python_byte_code}

-- The handler of `std::runtime_error`, which a `PyCompileError` is not.
abbrev pub as_error : {A : Type 0} → Decoded A → Decoded A
as_error (fail (Error.runtime_error message)) =
    fail (Error.runtime_error (str_append "error: " message))
as_error r = r

-- `compile` is `Py_CompileString` on a text and a file name, `none` where it returns a null pointer.
module _ {P : Type 0} (py : Python P) (compile : String → String → Option P) where
  unfoldable pub compile_file : String → String → Bool → Decoded ByteCodeModule
  unfolding generate_python_byte_code
  compile_file content name is_main = elim (compile content name) [
    | none ↦ fail (Error.runtime_error py.error_traceback)
    | some code ↦ generate_python_byte_code py depths name is_main code
  ]

  -- The loop over the contents, of which each round compiles the first, `fileContents[0]`. A file
  -- name that is missing is an access out of bounds.
  unfoldable pub compile_loop :
      String → List String → List String → Bool → Decoded (List ByteCodeModule)
  unfolding compile_file
  compile_loop first [] names is_main = ok []
  compile_loop first (content ∷ contents) [] is_main = fail Error.undefined
  compile_loop first (content ∷ contents) (name ∷ names) is_main = do
    m ← as_error (compile_file first name is_main)
    ms ← compile_loop first contents names false
    ok (m ∷ ms)

  unfoldable pub compile_python : List String → List String → Decoded (List ByteCodeModule)
  unfolding compile_loop
  compile_python [] names = ok []
  compile_python (first ∷ contents) names = compile_loop first (first ∷ contents) names true

  compile_loop-contents :
      (first : String) (xs ys names : List String) (is_main : Bool)
      → length xs ≡ length ys
      → compile_loop first xs names is_main ≡ compile_loop first ys names is_main
  unfolding compile_loop
  compile_loop-contents first [] [] names is_main e = refl
  compile_loop-contents first [] (y ∷ ys) names is_main e = absurd (cc e)
  compile_loop-contents first (x ∷ xs) [] names is_main e = absurd (cc e)
  compile_loop-contents first (x ∷ xs) (y ∷ ys) [] is_main e = refl
  compile_loop-contents first (x ∷ xs) (y ∷ ys) (name ∷ names) is_main e =
      ap (λ r. as_error (compile_file first name is_main) >>= λ m. r >>= λ ms. ok (m ∷ ms))
        (compile_loop-contents first xs ys names false (omega (arith, e)))

  -- Only the first source text is compiled: any others of the same number give the same modules.
  pub compile_python-contents :
      (first : String) (xs ys names : List String)
      → length xs ≡ length ys
      → compile_python (first ∷ xs) names ≡ compile_python (first ∷ ys) names
  unfolding compile_python
  compile_python-contents first xs ys names e =
      compile_loop-contents first (first ∷ xs) (first ∷ ys) names true (ap suc e)
