-- ===== src/Codegen/Simulation/Instructions.antt =====
-- The straight-line instructions: what the switch of `buildMLIRInstruction` emits, against the
-- stack machine.
use text.Mathlib.Text.{◌==◌ as str_eq}
use Prim.Native.String.{◌++◌ as str_append}
use pycompile.Base.{
  true, ℕ, zero, suc, ◌+◌, ◌*◌, ◌≡◌, refl, Bool, List, [], ◌∷◌, Option, none, some, String, arith,
  Bool-cases, inl, inr,
}
use pycompile.Base.Int.{ℤ, pos, negsuc, ◌*ℤ◌}
use pycompile.Bytecode.{Opcode, CodeInfo, Argval}
use pycompile.Pyir.{Value, Scalar, Attr, OpName}
use pycompile.Codegen.State.{
  State, Result, Gen, ◌>>=◌, push, pop, top, stack_at, create, create_void, and_then,
}
use pycompile.Codegen.Builders.{
  build_string_codegen, build_list_codegen, list_extend_codegen, list_append_codegen,
  build_set_codegen, set_update_codegen, set_add_codegen, build_map_codegen, map_add_codegen,
}
use pycompile.Codegen.Logical.{
  binary_op_codegen, compare_op_codegen, contains_op_codegen, to_bool_codegen, unary_not_codegen,
  unary_negative_codegen, unary_invert_codegen, format_simple_codegen,
}
use pycompile.Codegen.Memory.{
  load_small_int_codegen, load_global_codegen, load_fast_borrow_codegen, load_name_codegen,
  store_name_codegen, load_fast_codegen, store_fast_codegen, load_deref_codegen,
  store_deref_codegen, load_attr_codegen, store_subscr_codegen, load_fast_and_clear_codegen,
}
use pycompile.Codegen.Control.{get_iter_codegen}
use pycompile.Codegen.Functions.{call_func_codegen}
use pycompile.Codegen.Driver.{
  copy_codegen, swap_codegen, swap_stack, push_null_codegen, unsupported_codegen, dispatch,
}
use pycompile.Codegen.Simulation.Machine
use pycompile.Codegen.Simulation.Machine.{Machine, step, and_some, with_index, with_count}
use pycompile.Codegen.Simulation.Ready.{IsReady, denote, Sound, Sound-bind}
use pycompile.Codegen.Simulation.Shapes.{
  with_stack, produce-Sound, unary-Sound, binary-Sound, contains-Sound, store-Sound,
  store_item-Sound, add_to-Sound, add_pair-Sound, copy-Sound, swap-Sound, discard-Sound,
}
use pycompile.Codegen.Simulation.Collect.{collect-Sound, call-Sound}

-- The instructions that neither branch nor end the code, but LOAD_CONST, which is treated apart,
-- MAKE_FUNCTION, which follows a nested code object, STORE_FAST_LOAD_FAST, LOAD_DEREF and
-- STORE_DEREF. LOAD_GLOBAL and LOAD_ATTR are those that push a null.
abbrev pub IsStraight : Opcode → String → Argval → Type 0
IsStraight Opcode.end_for repr arg = ⊥
IsStraight Opcode.jump_forward repr arg = ⊥
IsStraight Opcode.jump_backward repr arg = ⊥
IsStraight Opcode.pop_jump_if_true repr arg = ⊥
IsStraight Opcode.pop_jump_if_false repr arg = ⊥
IsStraight Opcode.for_iter repr arg = ⊥
IsStraight Opcode.pop_iter repr arg = ⊥
IsStraight Opcode.make_function repr arg = ⊥
IsStraight Opcode.return_value repr arg = ⊥
IsStraight Opcode.load_const repr arg = ⊥
IsStraight Opcode.store_fast_load_fast repr arg = ⊥
IsStraight Opcode.load_deref repr arg = ⊥
IsStraight Opcode.store_deref repr arg = ⊥
IsStraight Opcode.load_global repr (Argval.str n) = str_eq repr (str_append n " + NULL") ≡ true
IsStraight Opcode.load_attr repr (Argval.str n) = str_eq repr (str_append n " + NULL|self") ≡ true
IsStraight _ repr arg = Unit

-- The code generators, opened down to the monad's operations, which stay shut.
bodies : Unit {0}
unfolding dispatch step build_string_codegen build_list_codegen list_extend_codegen
    list_append_codegen build_set_codegen set_update_codegen set_add_codegen build_map_codegen
    map_add_codegen binary_op_codegen compare_op_codegen contains_op_codegen to_bool_codegen
    unary_not_codegen unary_negative_codegen unary_invert_codegen format_simple_codegen
    load_small_int_codegen load_global_codegen load_fast_borrow_codegen load_name_codegen
    store_name_codegen load_fast_codegen store_fast_codegen load_deref_codegen store_deref_codegen
    load_attr_codegen store_subscr_codegen load_fast_and_clear_codegen get_iter_codegen
    call_func_codegen copy_codegen swap_codegen push_null_codegen unsupported_codegen
bodies = tt

double_pos : (n : ℕ) → pos n *ℤ pos 2 ≡ pos (n * 2)
unfolding ◌*ℤ◌
double_pos n = ground arith

double_negsuc : (n : ℕ) → negsuc n *ℤ pos 2 ≡ negsuc (n * 2 + 1)
unfolding ◌*ℤ◌
double_negsuc n = ground arith

module _ {V S : Type 0} (exec : OpName → List V → S → V × S) (env₀ : Value → V) (rt₀ : S)
    (function : Bool) (info : CodeInfo) (constant : Gen (Unit {0})) where
  abbrev Agrees : Gen (Unit {0}) → State → Option (Machine V S) → Type 0
  Agrees m s result = Sound exec env₀ rt₀ function (m s) result

  then_null-Sound :
      (r : Result (Unit {0})) (m : Option (Machine V S))
      → Sound exec env₀ rt₀ function r m
      → Sound exec env₀ rt₀ function
          (and_then r (λ _. push_null_codegen))
          (and_some m (Machine.push_null exec))
  unfolding push_null_codegen
  then_null-Sound r m h =
      Sound-bind exec env₀ rt₀ function r m push_null_codegen (Machine.push_null exec) h
        (λ s ready. produce-Sound exec env₀ rt₀ function s OpName.push_null s.stack ready)

  load_attr-Sound :
      (n : String) (vs : List Value) (s : State)
      → IsReady function (with_stack s vs)
      → Agrees (load_attr_codegen (Argval.str n)) (with_stack s vs) (
          and_some
            (Machine.unary exec
              (OpName.load_attr n)
              (denote exec env₀ rt₀ (with_stack s vs)).stack
              (denote exec env₀ rt₀ (with_stack s vs)).rt)
            (Machine.push_null exec))
  unfolding load_attr_codegen pop push_null_codegen
  load_attr-Sound n [] s r = tt
  load_attr-Sound n (v ∷ vs) s r =
      let m = denote exec env₀ rt₀ (with_stack s (v ∷ vs)) in
      then_null-Sound
        ((do o ← pop; w ← create (OpName.load_attr n) (o ∷ []); push w) (with_stack s (v ∷ vs)))
        (Machine.unary exec (OpName.load_attr n) m.stack m.rt)
        (unary-Sound exec env₀ rt₀ function s (OpName.load_attr n) (v ∷ vs) r)

  add_out :
      (name : OpName) (i : ℤ) (vs : List Value) (s : State)
      → with_index (Argval.int i) (λ k. some k) ≡ none
      → Agrees (do x ← pop; c ← stack_at i; create_void name (c ∷ x ∷ [])) (with_stack s vs) none
  unfolding pop stack_at
  add_out name i [] s e = tt
  add_out name (pos zero) (x ∷ vs) s e = tt
  add_out name (pos (suc i)) (x ∷ vs) s e = absurd (cc e)
  add_out name (negsuc i) (x ∷ vs) s e = tt

  add_at-Sound :
      (name : OpName) (i : ℤ) (s : State)
      → IsReady function s
      → Agrees
          (do x ← pop; c ← stack_at i; create_void name (c ∷ x ∷ []))
          s
          (with_index (Argval.int i) (λ k.
            Machine.add_to exec name k (denote exec env₀ rt₀ s).stack (denote exec env₀ rt₀ s).rt))
  add_at-Sound name (pos zero) s r = add_out name (pos zero) s.stack s refl
  add_at-Sound name (pos (suc i)) s r = add_to-Sound exec env₀ rt₀ function s name i s.stack r
  add_at-Sound name (negsuc i) s r = add_out name (negsuc i) s.stack s refl

  map_add_out :
      (i : ℤ) (vs : List Value) (s : State)
      → with_index (Argval.int i) (λ k. some k) ≡ none
      → Agrees (map_add_codegen (Argval.int i)) (with_stack s vs) none
  unfolding map_add_codegen pop stack_at
  map_add_out i [] s e = tt
  map_add_out i (x ∷ []) s e = tt
  map_add_out (pos zero) (x ∷ k ∷ vs) s e = tt
  map_add_out (pos (suc i)) (x ∷ k ∷ vs) s e = absurd (cc e)
  map_add_out (negsuc i) (x ∷ k ∷ vs) s e = tt

  map_add-Sound :
      (i : ℤ) (s : State)
      → IsReady function s
      → Agrees (map_add_codegen (Argval.int i)) s (
          with_index (Argval.int i) (λ k.
            Machine.add_pair exec k (denote exec env₀ rt₀ s).stack (denote exec env₀ rt₀ s).rt))
  unfolding map_add_codegen
  map_add-Sound (pos zero) s r = map_add_out (pos zero) s.stack s refl
  map_add-Sound (pos (suc i)) s r = add_pair-Sound exec env₀ rt₀ function s i s.stack r
  map_add-Sound (negsuc i) s r = map_add_out (negsuc i) s.stack s refl

  build_map-Sound :
      (i : ℤ) (s : State)
      → IsReady function s
      → Agrees (build_map_codegen (Argval.int i)) s (
          with_count (Argval.int i) (λ n.
            Machine.collect exec OpName.build_map
              (n * 2)
              (denote exec env₀ rt₀ s).stack
              (denote exec env₀ rt₀ s).rt))
  unfolding build_map_codegen
  build_map-Sound (pos n) s r =
      rw (double_pos n) (collect-Sound exec env₀ rt₀ function s OpName.build_map (n * 2) s.stack r)
  build_map-Sound (negsuc n) s r = rw (double_negsuc n) tt

  swap_out :
      (i : ℤ) (s : State)
      → with_index (Argval.int i) (λ k. some k) ≡ none
      → Agrees (swap_stack i) s none
  unfolding swap_stack top
  swap_out (pos zero) s e = out s.stack
    where
      out : (vs : List Value) → Agrees (swap_stack (pos zero)) (with_stack s vs) none
      out [] = tt
      out (x ∷ vs) = tt
  swap_out (pos (suc i)) s e = absurd (cc e)
  swap_out (negsuc n) s e = out s.stack
    where
      out : (vs : List Value) → Agrees (swap_stack (negsuc n)) (with_stack s vs) none
      out [] = tt
      out (x ∷ vs) = tt

  -- From a placed insertion point, values on the stack that exist, and no jump targets, for a
  -- LOAD_GLOBAL or LOAD_ATTR that is to push a null and a CALL with a null below its arguments: the
  -- generator fails exactly where the machine cannot run the instruction, and else emits code
  -- that takes the machine's step.
  pub dispatch-Sound :
      (opcode : Opcode) (repr : String) (arg : Argval)
      → IsStraight opcode repr arg
      → (s : State) → IsReady function s
      → Agrees
          (dispatch opcode repr info arg constant)
          s
          (step exec opcode repr info arg (denote exec env₀ rt₀ s))
  unfolding bodies
  dispatch-Sound Opcode.resume repr arg h s r = (refl, r)
  dispatch-Sound Opcode.not_taken repr arg h s r = (refl, r)
  dispatch-Sound Opcode.end_for repr arg h s r = absurd h
  dispatch-Sound Opcode.build_string repr (Argval.int (pos n)) h s r =
      collect-Sound exec env₀ rt₀ function s OpName.build_string n s.stack r
  dispatch-Sound Opcode.build_string repr (Argval.int (negsuc n)) h s r = tt
  dispatch-Sound Opcode.build_string repr _ h s r = tt
  dispatch-Sound Opcode.build_list repr (Argval.int (pos n)) h s r =
      collect-Sound exec env₀ rt₀ function s OpName.build_list n s.stack r
  dispatch-Sound Opcode.build_list repr (Argval.int (negsuc n)) h s r = tt
  dispatch-Sound Opcode.build_list repr _ h s r = tt
  dispatch-Sound Opcode.build_set repr (Argval.int (pos n)) h s r =
      collect-Sound exec env₀ rt₀ function s OpName.build_set n s.stack r
  dispatch-Sound Opcode.build_set repr (Argval.int (negsuc n)) h s r = tt
  dispatch-Sound Opcode.build_set repr _ h s r = tt
  dispatch-Sound Opcode.list_extend repr (Argval.int i) h s r =
      add_at-Sound OpName.list_extend i s r
  dispatch-Sound Opcode.list_extend repr _ h s r = tt
  dispatch-Sound Opcode.list_append repr (Argval.int i) h s r =
      add_at-Sound OpName.list_append i s r
  dispatch-Sound Opcode.list_append repr _ h s r = tt
  dispatch-Sound Opcode.set_update repr (Argval.int i) h s r = add_at-Sound OpName.set_update i s r
  dispatch-Sound Opcode.set_update repr _ h s r = tt
  dispatch-Sound Opcode.set_add repr (Argval.int i) h s r = add_at-Sound OpName.set_add i s r
  dispatch-Sound Opcode.set_add repr _ h s r = tt
  dispatch-Sound Opcode.build_map repr (Argval.int i) h s r = build_map-Sound i s r
  dispatch-Sound Opcode.build_map repr _ h s r = tt
  dispatch-Sound Opcode.map_add repr (Argval.int i) h s r = map_add-Sound i s r
  dispatch-Sound Opcode.map_add repr _ h s r = tt
  dispatch-Sound Opcode.jump_forward repr arg h s r = absurd h
  dispatch-Sound Opcode.jump_backward repr arg h s r = absurd h
  dispatch-Sound Opcode.pop_jump_if_true repr arg h s r = absurd h
  dispatch-Sound Opcode.pop_jump_if_false repr arg h s r = absurd h
  dispatch-Sound Opcode.get_iter repr arg h s r =
      unary-Sound exec env₀ rt₀ function s OpName.get_iter s.stack r
  dispatch-Sound Opcode.for_iter repr arg h s r = absurd h
  dispatch-Sound Opcode.pop_iter repr arg h s r = absurd h
  dispatch-Sound Opcode.make_function repr arg h s r = absurd h
  dispatch-Sound Opcode.call repr (Argval.int (pos n)) h s r =
      call-Sound exec env₀ rt₀ function s n s.stack r
  dispatch-Sound Opcode.call repr (Argval.int (negsuc n)) h s r = tt
  dispatch-Sound Opcode.call repr _ h s r = tt
  dispatch-Sound Opcode.return_value repr arg h s r = absurd h
  dispatch-Sound Opcode.binary_op repr arg h s r = elim (Bool-cases (str_eq repr "")) [
    | inl e ↦ rw e tt
    | inr e ↦ rw e (binary-Sound exec env₀ rt₀ function s (OpName.binary_op repr) s.stack r)
  ]
  dispatch-Sound Opcode.compare_op repr arg h s r = elim (Bool-cases (str_eq repr "")) [
    | inl e ↦ rw e tt
    | inr e ↦ rw e (binary-Sound exec env₀ rt₀ function s (OpName.compare_op repr) s.stack r)
  ]
  dispatch-Sound Opcode.contains_op repr arg h s r = elim (Bool-cases (str_eq repr "")) [
    | inl e ↦ rw e tt
    | inr e ↦ rw e (contains-Sound exec env₀ rt₀ function s (OpName.contains_op repr) s.stack r)
  ]
  dispatch-Sound Opcode.to_bool repr arg h s r =
      unary-Sound exec env₀ rt₀ function s OpName.to_bool s.stack r
  dispatch-Sound Opcode.unary_not repr arg h s r =
      unary-Sound exec env₀ rt₀ function s OpName.unary_not s.stack r
  dispatch-Sound Opcode.unary_negative repr arg h s r =
      unary-Sound exec env₀ rt₀ function s OpName.unary_negative s.stack r
  dispatch-Sound Opcode.unary_invert repr arg h s r =
      unary-Sound exec env₀ rt₀ function s OpName.unary_invert s.stack r
  dispatch-Sound Opcode.format_simple repr arg h s r =
      unary-Sound exec env₀ rt₀ function s OpName.format_simple s.stack r
  dispatch-Sound Opcode.load_small_int repr (Argval.int i) h s r =
      produce-Sound exec env₀ rt₀ function s (OpName.load_const (Attr.scalar (Scalar.int i)))
        s.stack r
  dispatch-Sound Opcode.load_small_int repr _ h s r = tt
  dispatch-Sound Opcode.load_global repr (Argval.str n) h s r = rw h (
      then_null-Sound ((create (OpName.load_name n) [] >>= push) s)
        (Machine.produce exec (OpName.load_name n) [] (denote exec env₀ rt₀ s).stack
          (denote exec env₀ rt₀ s).rt)
        (produce-Sound exec env₀ rt₀ function s (OpName.load_name n) s.stack r))
  dispatch-Sound Opcode.load_global repr _ h s r = tt
  dispatch-Sound Opcode.load_fast_borrow repr (Argval.str n) h s r =
      produce-Sound exec env₀ rt₀ function s (OpName.load_fast n) s.stack r
  dispatch-Sound Opcode.load_fast_borrow repr _ h s r = tt
  dispatch-Sound Opcode.load_name repr (Argval.str n) h s r =
      produce-Sound exec env₀ rt₀ function s (OpName.load_name n) s.stack r
  dispatch-Sound Opcode.load_name repr _ h s r = tt
  dispatch-Sound Opcode.load_fast repr (Argval.str n) h s r =
      produce-Sound exec env₀ rt₀ function s (OpName.load_fast n) s.stack r
  dispatch-Sound Opcode.load_fast repr _ h s r = tt
  dispatch-Sound Opcode.load_fast_and_clear repr (Argval.str n) h s r =
      produce-Sound exec env₀ rt₀ function s (OpName.load_fast_and_clear n) s.stack r
  dispatch-Sound Opcode.load_fast_and_clear repr _ h s r = tt
  dispatch-Sound Opcode.load_const repr arg h s r = absurd h
  dispatch-Sound Opcode.load_attr repr (Argval.str n) h s r = rw h (load_attr-Sound n s.stack s r)
  dispatch-Sound Opcode.load_attr repr _ h s r = tt
  dispatch-Sound Opcode.store_name repr (Argval.str n) h s r =
      store-Sound exec env₀ rt₀ function s (OpName.store_name n) s.stack r
  dispatch-Sound Opcode.store_name repr _ h s r = tt
  dispatch-Sound Opcode.store_fast repr (Argval.str n) h s r =
      store-Sound exec env₀ rt₀ function s (OpName.store_fast n) s.stack r
  dispatch-Sound Opcode.store_fast repr _ h s r = tt
  dispatch-Sound Opcode.load_deref repr arg h s r = absurd h
  dispatch-Sound Opcode.store_deref repr arg h s r = absurd h
  dispatch-Sound Opcode.store_subscr repr arg h s r =
      store_item-Sound exec env₀ rt₀ function s s.stack r
  dispatch-Sound Opcode.store_fast_load_fast repr arg h s r = absurd h
  dispatch-Sound Opcode.push_null repr arg h s r =
      produce-Sound exec env₀ rt₀ function s OpName.push_null s.stack r
  dispatch-Sound Opcode.pop_top repr arg h s r = discard-Sound exec env₀ rt₀ function s s.stack r
  dispatch-Sound Opcode.copy repr (Argval.int (pos (suc i))) h s r =
      copy-Sound exec env₀ rt₀ function s i s.stack r
  dispatch-Sound Opcode.copy repr (Argval.int (pos zero)) h s r = tt
  dispatch-Sound Opcode.copy repr (Argval.int (negsuc n)) h s r = tt
  dispatch-Sound Opcode.copy repr _ h s r = tt
  dispatch-Sound Opcode.swap repr (Argval.int (pos (suc i))) h s r =
      swap-Sound exec env₀ rt₀ function s i s.stack r
  dispatch-Sound Opcode.swap repr (Argval.int (pos zero)) h s r = swap_out (pos zero) s refl
  dispatch-Sound Opcode.swap repr (Argval.int (negsuc n)) h s r = swap_out (negsuc n) s refl
  dispatch-Sound Opcode.swap repr _ h s r = tt
  dispatch-Sound (Opcode.other name) repr arg h s r = tt
