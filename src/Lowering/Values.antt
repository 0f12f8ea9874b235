-- ===== src/Lowering/Values.antt =====
-- The constants that pycompile/src/lowering makes, and what they call.
use pycompile.Base.{ℕ, suc, ◌≡◌, refl, true, [], ◌∷◌, some, String, if◌then◌else◌, arith}
use pycompile.Base.Text.{to_string}
use pycompile.Pyir.{Scalar, Attr, OpName}
use pycompile.Lowering.Rewriter.{FnType, LlvmType, LlvmOp, Symbols, lookup, create, call_fn}
use pycompile.Lowering.Constants.{
  constant_symbol, one_ptr, takes_one, Hash, lower_load_const, load_string_const, load_bool_const,
  load_int_const, load_float_const, load_none_const,
}
use pycompile.Lowering.Machine.{Word, Arg, Machine, running, Runtime, update, view, step, run}
use pycompile.Lowering.Stores.{
  with_fn, get_fn_lem, get_string_lem, other_name, names_table, lookup-names,
}
use pycompile.Lowering.Calls.{start, Makes, update-here, update-other, call_fn-Makes}
use pycompile.Lowering.Meaning.{constant_call, IsNamed, MakesCall}

module _ {V S : Type 0} (rt : Runtime V S) where
  -- A call with one value that an instruction makes.
  one_arg-Makes :
      (fn : String) (op : LlvmOp) (w : Word V) (arg : Arg V) (table : Symbols) (n : ℕ)
      (m : Machine V S)
      → step rt table (record { op = op; result = some n }) m
        ≡ running (record m { env = update m.env n w })
      → view table m.memory w ≡ arg
      → Makes rt true fn (arg ∷ []) n m (
          call_fn true fn (n ∷ []) (record {
            symbols = table;
            emitted = record { op = op; result = some n } ∷ [];
            next_value = suc n;
          }))
  unfolding run
  one_arg-Makes fn op w arg table n m made seen =
      call_fn-Makes rt true fn (n ∷ []) (arg ∷ []) n m (record m { env = update m.env n w }) _
        (omega arith) (rw made refl) refl (update-other m.env n w)
        (rw (update-here m.env n w, seen) refl)

  insert_none :
      (type : FnType) (table : Symbols) (n : ℕ) (m : Machine V S)
      → Makes rt true "pyir_loadConstNone" [] n m (
          call_fn true "pyir_loadConstNone" []
            (start (with_fn "pyir_loadConstNone" type (lookup "pyir_loadConstNone" table) table) n))
  unfolding run
  insert_none type table n m =
      call_fn-Makes rt true "pyir_loadConstNone" [] [] n m m _ (omega arith) refl refl
        (λ u lt. refl) refl

  pub load_const-Makes :
      (hash : Hash) (value : Attr) (table : Symbols) (n : ℕ) (m : Machine V S)
      → IsNamed hash table (OpName.load_const value)
      → MakesCall rt (constant_call value) n m (lower_load_const hash value (start table n))
  unfolding lower_load_const load_string_const load_bool_const load_int_const load_float_const
      load_none_const create
  load_const-Makes hash (Attr.scalar (Scalar.str text)) table n m named =
      let fn : String = "pyir_loadConstStr" in
      let first = with_fn fn one_ptr (lookup fn table) table in
      let found =
        lookup-names fn (constant_symbol hash text) text one_ptr table
          (other_name fn "__pyir_const_str_" (to_string (hash text)) refl) named in
      rw
        (
          get_fn_lem fn one_ptr (start table n),
          get_string_lem (constant_symbol hash text) text (start first n),
        )
        (one_arg-Makes fn (LlvmOp.address_of (constant_symbol hash text))
          (Word.symbol (constant_symbol hash text)) (Arg.text text)
          (names_table fn (constant_symbol hash text) text one_ptr table) n m refl (rw found refl))
  load_const-Makes hash (Attr.scalar (Scalar.bool b)) table n m named =
      let fn : String = "pyir_loadConstBool" in
      let byte : ℕ = if b then 1 else 0 in
      rw (get_fn_lem fn (takes_one LlvmType.i8) (start table n)) (
        one_arg-Makes fn (LlvmOp.const_i8 byte) (Word.byte byte) (Arg.value (Word.byte byte))
          (with_fn fn (takes_one LlvmType.i8) (lookup fn table) table) n m refl refl)
  load_const-Makes hash (Attr.scalar (Scalar.int i)) table n m named =
      let fn : String = "pyir_loadConstInt" in
      rw (get_fn_lem fn (takes_one LlvmType.i64) (start table n)) (
        one_arg-Makes fn (LlvmOp.const_i64 i) (Word.int i) (Arg.value (Word.int i))
          (with_fn fn (takes_one LlvmType.i64) (lookup fn table) table) n m refl refl)
  load_const-Makes hash (Attr.scalar (Scalar.float d)) table n m named =
      let fn : String = "pyir_loadConstFloat" in
      rw (get_fn_lem fn (takes_one LlvmType.f64) (start table n)) (
        one_arg-Makes fn (LlvmOp.const_f64 d) (Word.float d) (Arg.value (Word.float d))
          (with_fn fn (takes_one LlvmType.f64) (lookup fn table) table) n m refl refl)
  load_const-Makes hash (Attr.scalar Scalar.null) table n m named = tt
  load_const-Makes hash Attr.none table n m named =
      let fn : String = "pyir_loadConstNone" in
      let type : FnType = record { returns = LlvmType.ptr; takes = [] } in
      rw (get_fn_lem fn type (start table n)) (insert_none type table n m)
  load_const-Makes hash (Attr.array items) table n m named = tt
