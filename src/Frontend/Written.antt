-- ===== src/Frontend/Written.antt =====
-- The serializer on bytecode whose tags and lines are in order.
use text.Mathlib.Text.{◌==◌ as str_eq}
use pycompile.Base.{ℕ, zero, suc, Bool, true, false, Option, none, some, String, if◌then◌else◌}
use pycompile.Bytecode.{
  ArgvalType, Argval, ByteCodeInstruction, instr, Instructions, nil, cons, ByteCodeModule,
  bytecode_module,
}
use pycompile.Frontend.Python.{Python, Decoded, ok, fail, ◌>>=◌, Yields}
use pycompile.Frontend.Decode.{depths, generate_python_byte_code}
use pycompile.Frontend.Serialize.{
  typed_repr, repr_of, line_text, serialize_instruction, serialize_nested, serialize_instructions,
  serialize_byte_code_module,
}
use pycompile.Frontend.Tags.{
  HasLine, IsTagged, IsInstruction, AreInstructions, HasPositions, AtDepth,
  generate_python_byte_code-IsModule,
}

-- No exception.
abbrev pub Succeeds : {A : Type 0} → Decoded A → Type 0
Succeeds (ok a) = Unit
Succeeds (fail e) = ⊥

Succeeds-bind :
    {A B : Type 0} (r : Decoded A) (f : A → Decoded B)
    → Succeeds r
    → ((a : A) → Succeeds (f a))
    → Succeeds (r >>= f)
Succeeds-bind (ok a) f h k = k a
Succeeds-bind (fail e) f h k = absurd h

module _ (show : ℕ → String) where
  typed_repr-Succeeds :
      (n : ℕ) (type : ArgvalType) (arg : Argval)
      → IsTagged n type arg
      → Succeeds (typed_repr show type arg)
  typed_repr-Succeeds n ArgvalType.int (Argval.int i) h = tt
  typed_repr-Succeeds n ArgvalType.float (Argval.float i) h = tt
  typed_repr-Succeeds n ArgvalType.str (Argval.str i) h = tt
  typed_repr-Succeeds n ArgvalType.int _ h = absurd h
  typed_repr-Succeeds n ArgvalType.float _ h = absurd h
  typed_repr-Succeeds n ArgvalType.str _ h = absurd h
  typed_repr-Succeeds n ArgvalType.tuple_str arg h = tt
  typed_repr-Succeeds n ArgvalType.frozen_set arg h = tt
  typed_repr-Succeeds n ArgvalType.code arg h = tt
  typed_repr-Succeeds n _ arg h = tt

  repr_of-Succeeds :
      (repr : String) (n : ℕ) (type : ArgvalType) (arg : Argval)
      → IsTagged n type arg
      → Succeeds (repr_of show repr type arg)
  unfolding repr_of
  repr_of-Succeeds repr n type arg h = choose (str_eq repr "")
    where
      choose : (b : Bool) → Succeeds (if b then typed_repr show type arg else ok repr)
      choose true = typed_repr-Succeeds n type arg h
      choose false = tt

  line_text-Succeeds :
      (starts : Bool) (line : Option ℕ)
      → HasLine starts line
      → Succeeds (line_text show starts line)
  unfolding line_text
  line_text-Succeeds true none h = absurd h
  line_text-Succeeds true (some n) h = tt
  line_text-Succeeds false line h = tt

  serialize_instruction-Succeeds :
      (n depth : ℕ) (i : ByteCodeInstruction)
      → IsInstruction n i
      → Succeeds (serialize_instruction show i depth)
  unfolding serialize_instruction
  serialize_instruction-Succeeds n depth (instr offset opcode repr line starts type arg) (l, t) =
      Succeeds-bind (repr_of show repr type arg) _ (repr_of-Succeeds repr n type arg t) λ text.
        Succeeds-bind (line_text show starts line) _ (line_text-Succeeds starts line l) λ number. tt

  -- Modules are written when they stand as an argument that is in order.
  abbrev ModulesSucceed : ℕ → Type 0
  ModulesSucceed n =
      (m : ByteCodeModule) (depth : ℕ)
      → AtDepth n m
      → Succeeds (serialize_byte_code_module show m depth)

  serialize_nested-Succeeds :
      (n depth : ℕ) (i : ByteCodeInstruction)
      → ModulesSucceed n
      → IsInstruction n i
      → Succeeds (serialize_nested show i depth)
  unfolding serialize_nested
  serialize_nested-Succeeds n depth
        (instr offset opcode repr line starts ArgvalType.code (Argval.code m)) good h =
      good m (suc depth) h.1
  serialize_nested-Succeeds zero depth (instr offset opcode repr line starts ArgvalType.code _) good
        h =
      absurd h.1
  serialize_nested-Succeeds (suc n) depth (instr offset opcode repr line starts ArgvalType.code _)
        good h =
      absurd h.1
  serialize_nested-Succeeds n depth (instr offset opcode repr line starts _ _) good h = tt

  serialize_instructions-Succeeds :
      (n depth : ℕ) (is : Instructions)
      → ModulesSucceed n
      → AreInstructions n is
      → Succeeds (serialize_instructions show is depth)
  unfolding serialize_instructions
  serialize_instructions-Succeeds n depth nil good h = tt
  serialize_instructions-Succeeds n depth (cons i rest) good h =
      Succeeds-bind (serialize_instruction show i depth) _
        (serialize_instruction-Succeeds n depth i h.0)
        λ text.
          Succeeds-bind (serialize_nested show i depth) _
            (serialize_nested-Succeeds n depth i good h.0)
            λ nested.
              Succeeds-bind (serialize_instructions show rest depth) _
                (serialize_instructions-Succeeds n depth rest good h.1) λ more. tt

  pub serialize_byte_code_module-Succeeds : (n : ℕ) → ModulesSucceed n
  unfolding serialize_byte_code_module
  serialize_byte_code_module-Succeeds zero m depth h = absurd h
  serialize_byte_code_module-Succeeds (suc n) (bytecode_module filename module_name info is) depth
        h =
      Succeeds-bind (serialize_instructions show is depth) _
        (serialize_instructions-Succeeds n depth is (serialize_byte_code_module-Succeeds n) h)
        λ text. tt

  Yields-map :
      {A : Type 0} (P Q : A → Type 0) (r : Decoded A)
      → ((a : A) → P a → Q a)
      → Yields P r
      → Yields Q r
  Yields-map P Q (ok a) f h = f a h
  Yields-map P Q (fail e) f h = tt

-- Whatever the disassembly of a file yields is serialized without exception, at any indentation:
-- no variant is read as another alternative and no line number is missing, when `dis` gives
-- positions to the instructions that start a line.
pub serialize-generate_python_byte_code :
    {P : Type 0} (py : Python P) (show : ℕ → String)
    → HasPositions py
    → (filename : String) (is_main : Bool) (code : P)
    → Yields
        (λ m. (depth : ℕ) → Succeeds (serialize_byte_code_module show m depth))
        (generate_python_byte_code py depths filename is_main code)
serialize-generate_python_byte_code py show positions filename is_main code =
    Yields-map show (AtDepth depths) _ (generate_python_byte_code py depths filename is_main code)
      (λ m h depth. serialize_byte_code_module-Succeeds show depths m depth h)
      (generate_python_byte_code-IsModule py positions depths filename is_main code)
