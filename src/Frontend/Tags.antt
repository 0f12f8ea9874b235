-- ===== src/Frontend/Tags.antt =====
-- The tags and line numbers of disassembled instructions, and how deep code objects nest.
use pycompile.Base.{
  ℕ, zero, suc, ◌≡◌, refl, Bool, true, false, List, [], ◌∷◌, Option, none, some, String,
  if◌then◌else◌, Bool-cases, inl, inr,
}
use pycompile.Base.Int.{ℤ}
use pycompile.Bytecode.{
  Primitive, ArgvalType, Argval, ByteCodeInstruction, instr, Instructions, nil, cons,
  ByteCodeModule, bytecode_module,
}
use pycompile.Frontend.Python.{Python, Decoded, ok, fail, ◌>>=◌, non_null, Yields, Yields-bind}
use pycompile.Frontend.Decode.{
  utf8, utf8_or, extract_py_tuple_strings, instructions_of, decode_argval, decode_position,
  starts_line, decode_byte_code_instruction, decode_instructions, generate_python_byte_code,
}

abbrev pub HasLine : Bool → Option ℕ → Type 0
HasLine true none = ⊥
HasLine _ _ = Unit

abbrev mutual
  -- The type is the alternative that the variant holds, down to the given number of depths.
  pub IsTagged : ℕ → ArgvalType → Argval → Type 0
  IsTagged n ArgvalType.none Argval.none = Unit
  IsTagged n ArgvalType.bool (Argval.bool b) = Unit
  IsTagged n ArgvalType.int (Argval.int i) = Unit
  IsTagged n ArgvalType.float (Argval.float d) = Unit
  IsTagged n ArgvalType.str (Argval.str t) = Unit
  IsTagged n ArgvalType.tuple_str (Argval.tuple vs) = Unit
  IsTagged n ArgvalType.frozen_set (Argval.tuple vs) = Unit
  IsTagged (suc n) ArgvalType.code (Argval.code m) = IsModule n m
  IsTagged n _ _ = ⊥

  pub IsInstruction : ℕ → ByteCodeInstruction → Type 0
  IsInstruction n (instr offset opcode repr line starts type arg) =
      HasLine starts line × IsTagged n type arg

  pub AreInstructions : ℕ → Instructions → Type 0
  AreInstructions n nil = Unit
  AreInstructions n (cons i rest) = IsInstruction n i × AreInstructions n rest

  -- A module whose nested code objects are at most `n` deep, with the tags and lines above.
  pub IsModule : ℕ → ByteCodeModule → Type 0
  IsModule n (bytecode_module filename module_name info instructions) =
      AreInstructions n instructions

-- An instruction of `dis` that starts a line has positions.
abbrev pub HasPositions : {P : Type 0} → Python P → Type 0
HasPositions {P = P} py =
    (x s : P)
    → py.attr x "starts_line" ≡ some s
    → py.is_true s ≡ true
    → (q : P) × (py.attr x "positions" ≡ some q) × (py.is_none q ≡ false)

-- The argument of an instruction, when nested code objects are in order.
module _ {P : Type 0} (py : Python P) (n : ℕ) (nested : P → Decoded ByteCodeModule)
    (good : (x : P) → Yields (λ m. IsTagged n ArgvalType.code (Argval.code m)) (nested x)) where
  abbrev Tagged : ArgvalType × Argval → Type 0
  Tagged p = IsTagged n p.0 p.1

  tuple-Tagged :
      (r : Decoded (List Primitive))
      → Yields Tagged (r >>= λ vs. ok (ArgvalType.tuple_str, Argval.tuple vs))
  tuple-Tagged (ok vs) = tt
  tuple-Tagged (fail e) = tt

  str-Tagged : (r : Decoded String) → Yields Tagged (r >>= λ t. ok (ArgvalType.str, Argval.str t))
  str-Tagged (ok t) = tt
  str-Tagged (fail e) = tt

  frozen_set-Tagged :
      (r : Decoded (List Primitive))
      → Yields Tagged (r >>= λ vs. ok (ArgvalType.frozen_set, Argval.tuple vs))
  frozen_set-Tagged (ok vs) = tt
  frozen_set-Tagged (fail e) = tt

  code-Tagged :
      (r : Decoded ByteCodeModule)
      → Yields (λ m. IsTagged n ArgvalType.code (Argval.code m)) r
      → Yields Tagged (r >>= λ m. ok (ArgvalType.code, Argval.code m))
  code-Tagged (ok m) h = h
  code-Tagged (fail e) h = tt

  abbrev Yields-if :
      (b : Bool) (x y : Decoded (ArgvalType × Argval))
      → Yields Tagged x
      → Yields Tagged y
      → Yields Tagged (if b then x else y)
  Yields-if true x y h k = h
  Yields-if false x y h k = k

  decode_argval-Tagged : (repr : String) (x : P) → Yields Tagged (decode_argval py nested repr x)
  unfolding decode_argval
  decode_argval-Tagged repr x = Yields-if (py.is_bool x) _ _ tt (
      Yields-if (py.is_long x) _ _ tt (
        Yields-if (py.is_float x) _ _ tt (
          Yields-if (py.is_unicode x) _ _ (str-Tagged _) (
            Yields-if (py.is_tuple x) _ _ (tuple-Tagged _) (
              Yields-if (py.is_frozen_set x) _ _ (frozen_set-Tagged _) (
                Yields-if (py.is_code x) _ _ (code-Tagged (nested x) (good x))
                  (Yields-if (py.is_none x) _ _ tt tt)))))))

anything : {A : Type 0} (r : Decoded A) → Yields (λ (_ : A). Unit {0}) r
anything (ok a) = tt
anything (fail e) = tt

-- A step whose result does not matter.
skip :
    {A B : Type 0} (Q : B → Type 0) (r : Decoded A) (f : A → Decoded B)
    → ((a : A) → Yields Q (f a))
    → Yields Q (r >>= f)
skip Q r f k = Yields-bind (λ _. Unit {0}) Q r f (anything r) λ a _. k a

-- The line of an instruction that starts one.
has_line :
    {P : Type 0} (py : Python P) (l : ℤ) (s q : Option P)
    → ((t : P) → s ≡ some t → py.is_true t ≡ true → (u : P) × (q ≡ some u) × (py.is_none u ≡ false))
    → HasLine (starts_line py s) (decode_position py q l).1
unfolding decode_position
has_line py l none q h = tt
has_line py l (some t) q h = elim (Bool-cases (py.is_true t)) [
  | inl e ↦ (let (u, a, b) = h t refl e in rw (e, a, b) tt)
  | inr e ↦ rw e tt
]

module _ {P : Type 0} (py : Python P) (positions : HasPositions py) (n : ℕ)
    (nested : P → Decoded ByteCodeModule)
    (good : (x : P) → Yields (λ m. IsTagged n ArgvalType.code (Argval.code m)) (nested x)) where
  decode_byte_code_instruction-IsInstruction :
      (x : P) (l : ℤ)
      → Yields (λ p. IsInstruction n p.0) (decode_byte_code_instruction py nested x l)
  unfolding decode_byte_code_instruction
  decode_byte_code_instruction-IsInstruction x l =
      skip _ (non_null (py.attr x "offset")) _ λ offset.
        skip _ (non_null (py.attr x "opcode")) _ λ opcode.
          skip _ (non_null (py.attr x "opname")) _ λ opname. skip _ (utf8 py opname) _ λ op.
            skip _ (non_null (py.attr x "argrepr")) _ λ argrepr. skip _ (utf8 py argrepr) _ λ repr.
              skip _ (non_null (py.attr x "argval")) _ λ argval.
                Yields-bind (λ p. IsTagged n p.0 p.1) _ (decode_argval py nested repr argval) _
                  (decode_argval-Tagged py n nested good repr argval)
                  λ p h. (
                    has_line py l (py.attr x "starts_line") (py.attr x "positions") (positions x),
                    h,
                  )

  decode_instructions-AreInstructions :
      (items : List P) (l : ℤ) → Yields (AreInstructions n) (decode_instructions py nested items l)
  unfolding decode_instructions
  decode_instructions-AreInstructions [] l = tt
  decode_instructions-AreInstructions (x ∷ items) l =
      Yields-bind (λ p. IsInstruction n p.0) _ (decode_byte_code_instruction py nested x l) _
        (decode_byte_code_instruction-IsInstruction x l)
        λ p h.
          Yields-bind (AreInstructions n) _ (decode_instructions py nested items p.1) _
            (decode_instructions-AreInstructions items p.1) λ rest k. (h, k)

-- What the levels below yield, as an argument of an instruction.
abbrev pub AtDepth : ℕ → ByteCodeModule → Type 0
AtDepth n m = IsTagged n ArgvalType.code (Argval.code m)

pub generate_python_byte_code-IsModule :
    {P : Type 0} (py : Python P)
    → HasPositions py
    → (n : ℕ) (filename : String) (is_main : Bool) (code : P)
    → Yields (AtDepth n) (generate_python_byte_code py n filename is_main code)
unfolding generate_python_byte_code
generate_python_byte_code-IsModule py positions zero filename is_main code = tt
generate_python_byte_code-IsModule py positions (suc n) filename is_main code =
    skip _ (extract_py_tuple_strings py code "co_freevars") _ λ freevars.
      skip _ (extract_py_tuple_strings py code "co_cellvars") _ λ cellvars.
        skip _ (extract_py_tuple_strings py code "co_varnames") _ λ varnames.
          skip _ (utf8_or py "<unknown>" (py.attr code "co_name")) _ λ code_name.
            skip {B = ByteCodeModule} (AtDepth (suc n)) (instructions_of py code) _ λ items.
              Yields-bind {B = ByteCodeModule} (AreInstructions n) (AtDepth (suc n)) _ _
                (decode_instructions-AreInstructions py positions n
                  (generate_python_byte_code py n filename false)
                  (generate_python_byte_code-IsModule py positions n filename false) items _)
                λ is h. h
