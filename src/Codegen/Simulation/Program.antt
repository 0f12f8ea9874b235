-- ===== src/Codegen/Simulation/Program.antt =====
-- Straight-line programs: the loop of `buildMLIRModule` over instructions that do not branch.
use pycompile.Base.{
  ℕ, ◌≡◌, refl, ◌∙◌, Bool, true, false, List, [], Option, none, some, String, if◌then◌else◌,
}
use pycompile.Base.Assoc.{lookup}
use pycompile.Bytecode.{Opcode, ArgvalType, CodeInfo, Argval, instr, Instructions, nil, cons}
use pycompile.Pyir.{Value, Scalar, Attr, OpName}
use pycompile.Codegen.State.{State, Result, ok, err, Gen, ◌>>=◌, pure, push, create, and_then}
use pycompile.Codegen.Memory.{
  get_array_attr, const_attr, load_none_codegen, load_attr_const_codegen,
}
use pycompile.Codegen.Driver.{dispatch}
use pycompile.Codegen.Module.{is_return, enter_offset, load_const_codegen, build_instructions}
use pycompile.Codegen.Simulation.Machine.{Machine, step, and_some, run_machine}
use pycompile.Codegen.Simulation.Ready.{IsReady, denote, Sound}
use pycompile.Codegen.Simulation.Shapes.{produce-Sound}
use pycompile.Codegen.Simulation.Instructions.{IsStraight, dispatch-Sound}

-- The type that `decodeByteCodeInstruction` gives an argument value. A code object is left out, a
-- None at module level, and a frozen set, of which the code generator makes a tuple.
abbrev pub IsConstant : Bool → ArgvalType → Argval → Type 0
IsConstant function type Argval.none = function ≡ true
IsConstant function ArgvalType.bool (Argval.bool b) = Unit
IsConstant function ArgvalType.int (Argval.int i) = Unit
IsConstant function ArgvalType.float (Argval.float d) = Unit
IsConstant function ArgvalType.str (Argval.str t) = Unit
IsConstant function ArgvalType.tuple_str (Argval.tuple vs) = Unit
IsConstant function _ _ = ⊥

abbrev pub IsSimple : Bool → Opcode → String → ArgvalType → Argval → Type 0
IsSimple function Opcode.load_const repr type arg = IsConstant function type arg
IsSimple function opcode repr type arg = IsStraight opcode repr arg

-- Every instruction of the list is simple.
abbrev pub AreSimple : Bool → Instructions → Type 0
AreSimple function nil = Unit
AreSimple function (cons (instr offset opcode repr line starts type arg) rest) =
    IsSimple function opcode repr type arg × AreSimple function rest

-- In a function, None is a constant as any other.
load_none_lem :
    (s : State)
    → s.is_function ≡ true
    → load_none_codegen s ≡ (create (OpName.load_const Attr.none) [] >>= push) s
unfolding load_none_codegen
load_none_lem s e = choose s.is_function e
  where
    choose :
        (b : Bool)
        → b ≡ true
        → (if b then (create (OpName.load_const Attr.none) [] >>= push) else pure tt) s
          ≡ (create (OpName.load_const Attr.none) [] >>= push) s
    choose true e = refl
    choose false e = cc

module _ {V S : Type 0} (exec : OpName → List V → S → V × S) (env₀ : Value → V) (rt₀ : S)
    (function : Bool) (info : CodeInfo) where
  constant-Sound :
      (repr : String) (type : ArgvalType) (arg : Argval) (s : State)
      → IsConstant function type arg
      → IsReady function s
      → Sound exec env₀ rt₀ function
          (load_const_codegen type repr arg s)
          (step exec Opcode.load_const repr info arg (denote exec env₀ rt₀ s))
  unfolding load_const_codegen load_attr_const_codegen const_attr step
  constant-Sound repr type Argval.none s h r =
      rw (load_none_lem s (r.mode ∙ h))
        (produce-Sound exec env₀ rt₀ function s (OpName.load_const Attr.none) s.stack r)
  constant-Sound repr ArgvalType.bool (Argval.bool b) s h r =
      produce-Sound exec env₀ rt₀ function s (OpName.load_const (Attr.scalar (Scalar.bool b)))
        s.stack r
  constant-Sound repr ArgvalType.int (Argval.int i) s h r =
      produce-Sound exec env₀ rt₀ function s (OpName.load_const (Attr.scalar (Scalar.int i)))
        s.stack r
  constant-Sound repr ArgvalType.float (Argval.float d) s h r =
      produce-Sound exec env₀ rt₀ function s (OpName.load_const (Attr.scalar (Scalar.float d)))
        s.stack r
  constant-Sound repr ArgvalType.str (Argval.str t) s h r =
      produce-Sound exec env₀ rt₀ function s (OpName.load_const (Attr.scalar (Scalar.str t)))
        s.stack r
  constant-Sound repr ArgvalType.tuple_str (Argval.tuple vs) s h r =
      produce-Sound exec env₀ rt₀ function s (OpName.load_const (get_array_attr vs)) s.stack r
  constant-Sound repr _ _ s h r = absurd h

  simple-Sound :
      (opcode : Opcode) (repr : String) (type : ArgvalType) (arg : Argval) (s : State)
      → IsSimple function opcode repr type arg
      → IsReady function s
      → Sound exec env₀ rt₀ function
          (dispatch opcode repr info arg (load_const_codegen type repr arg) s)
          (step exec opcode repr info arg (denote exec env₀ rt₀ s))
        × (is_return opcode ≡ false)
  unfolding dispatch is_return
  simple-Sound Opcode.load_const repr type arg s h r = (constant-Sound repr type arg s h r, refl)
  simple-Sound Opcode.return_value repr type arg s h r = absurd h
  simple-Sound opcode repr type arg s h r = (
    dispatch-Sound exec env₀ rt₀ function info (load_const_codegen type repr arg) opcode repr arg h
        s r,
    refl,
  )

  -- An instruction and the rest of the loop.
  round-Sound :
      (r : Result (Unit {0})) (m : Option (Machine V S)) (returned : Bool)
      (rest : Bool → Gen (Unit {0})) (g : Machine V S → Option (Machine V S))
      → Sound exec env₀ rt₀ function r m
      → returned ≡ false
      → ((s : State)
          → IsReady function s
          → Sound exec env₀ rt₀ function (rest false s) (g (denote exec env₀ rt₀ s)))
      → Sound exec env₀ rt₀ function
          (and_then (and_then r (λ _. pure (if returned then true else false))) rest)
          (and_some m g)
  round-Sound (ok u s) (some m) true rest g h e k = absurd (cc e)
  round-Sound (ok u s) (some m) false rest g h e k = rw (← h.0) (k s h.1)
  round-Sound (ok u s) none returned rest g h e k = absurd h
  round-Sound (err x) (some m) returned rest g h e k = absurd h
  round-Sound (err x) none returned rest g h e k = tt

  enter_straight :
      (offset : ℕ) (s : State) → s.offset_to_block ≡ [] → enter_offset offset false s ≡ ok false s
  unfolding enter_offset lookup
  enter_straight offset s e = rw (e, lookup)

  pub build_instructions-Sound :
      (is : Instructions) (s : State)
      → AreSimple function is
      → IsReady function s
      → Sound exec env₀ rt₀ function
          (build_instructions info false is s)
          (run_machine exec info is (denote exec env₀ rt₀ s))
  unfolding build_instructions run_machine
  build_instructions-Sound nil s h r = (refl, r)
  build_instructions-Sound (cons (instr offset opcode repr line starts type arg) rest) s h r =
      rw (enter_straight offset s r.no_targets) (
        round-Sound (dispatch opcode repr info arg (load_const_codegen type repr arg) s)
          (step exec opcode repr info arg (denote exec env₀ rt₀ s)) (is_return opcode)
          (λ complete. build_instructions info complete rest) (run_machine exec info rest)
          (simple-Sound opcode repr type arg s h.0 r).0
          (simple-Sound opcode repr type arg s h.0 r).1
          (λ s' r'. build_instructions-Sound rest s' h.1 r'))
