-- ===== src/Lowering/Refinement.antt =====
-- The patterns of pycompile/src/lowering against what each operation should call.
use text.Mathlib.Text.{◌==◌ as str_eq}
use text.Mathlib.TextEquality.{eq_iff}
use pycompile.Base.{
  Bool-cases, inl, inr, sym, ◌≡◌, ℕ, suc, ◌<◌, refl, true, false, List, [], ◌∷◌, some, String, map,
  All, arith,
}
use pycompile.Pyir.{Value, OpName, Successor}
use pycompile.Lowering.Rewriter.{
  FnType, LlvmType, LlvmOp, Symbols, lookup, create, Build, Rewritten, insert_runtime_func,
}
use pycompile.Lowering.Constants.{name_symbol, Hash}
use pycompile.Lowering.Patterns.{
  binary_fn, compare_fn, contains_fn, lower, lower_load_attr, lower_store_subscr, lower_operator,
  stripped, lower_compare, Library,
}
use pycompile.Lowering.Machine.{Word, Arg, Machine, Runtime, update, run}
use pycompile.Lowering.Stores.{
  with_fn, get_fn_lem, get_string_lem, Agrees, other_name, names_table, lookup-names,
}
use pycompile.Lowering.Calls.{
  IsPlain, start, Makes, update-here, update-other, plain_view, args_of_plain, call_fn-Makes,
  insert_runtime_func-Makes, insert_load_runtime_func-Makes, insert_store_runtime_func-Makes,
}
use pycompile.Lowering.Passed.{build_array_type-Makes, lower_call-Makes}
use pycompile.Lowering.Meaning.{
  operator_call, listed, binary_calls, compare_calls, contains_calls, meaning, IsNamed, MakesCall,
}
use pycompile.Lowering.Values.{load_const-Makes}

-- The entries of the code's tables.
All-binary :
    (vs : List Value)
    → All (λ p. lower_operator (binary_fn p.0) vs ≡ insert_runtime_func p.1 true vs) binary_calls
unfolding binary_fn
All-binary vs = (
  refl,
  (
    refl,
    (
      refl,
      (
        refl,
        (
          refl,
          (
            refl,
            (
              refl,
              (
                refl,
                (
                  refl,
                  (
                    refl,
                    (
                      refl,
                      (
                        refl,
                        (refl, (refl, (refl, (refl, (refl, (refl, (refl, (refl, (refl, tt))))))))),
                      ),
                    ),
                  ),
                ),
              ),
            ),
          ),
        ),
      ),
    ),
  ),
)

All-compare :
    (vs : List Value)
    → All (λ p. lower_compare (stripped p.0) vs ≡ insert_runtime_func p.1 true vs) compare_calls
unfolding stripped compare_fn
All-compare vs = (
  refl,
  (refl, (refl, (refl, (refl, (refl, (refl, (refl, (refl, (refl, (refl, (refl, tt))))))))))),
)

All-contains :
    (vs : List Value)
    → All
        (λ p. lower_operator (contains_fn p.0) vs ≡ insert_runtime_func p.1 true vs)
        contains_calls
unfolding contains_fn
All-contains vs = (refl, tt)

module _ {V S : Type 0} (rt : Runtime V S) where
  load_attr-Makes :
      (name : String) (obj : Value) (table : Symbols) (n : ℕ) (m : Machine V S)
      → Agrees table (name_symbol name) name
      → obj < n
      → IsPlain (m.env obj)
      → Makes rt true "pyir_loadAttr"
          (Arg.value (m.env obj) ∷ Arg.text name ∷ [])
          n
          m
          (lower_load_attr name obj (start table n))
  unfolding lower_load_attr create run
  load_attr-Makes name obj table n m agrees lt plain =
      let fn : String = "pyir_loadAttr" in
      let type : FnType = record {
        returns = LlvmType.ptr;
        takes = LlvmType.ptr ∷ LlvmType.ptr ∷ [];
      } in
      let after = names_table fn (name_symbol name) name type table in
      let w : Word V = Word.symbol (name_symbol name) in
      let found =
        lookup-names fn (name_symbol name) name type table (other_name fn "__pyir_str_" name refl)
          agrees in
      rw
        (
          get_fn_lem fn type (start table n),
          get_string_lem (name_symbol name) name
              (start (with_fn fn type (lookup fn table) table) n),
        )
        (call_fn-Makes rt true fn (obj ∷ n ∷ []) _ n m (record m { env = update m.env n w })
          (record {
            symbols = after;
            emitted = record { op = LlvmOp.address_of (name_symbol name); result = some n } ∷ [];
            next_value = suc n;
          })
          (omega arith) refl refl (update-other m.env n w)
          (rw
            (
              update-other m.env n w obj lt,
              plain_view rt after m.memory (m.env obj) plain,
              update-here m.env n w,
              found,
            )
            refl))

  store_subscr-Makes :
      (c i v : Value) (table : Symbols) (n : ℕ) (m : Machine V S)
      → All (λ u. IsPlain (m.env u)) (c ∷ i ∷ v ∷ [])
      → Makes rt false "pyir_storeSubscr"
          (map (λ u. Arg.value (m.env u)) (c ∷ i ∷ v ∷ []))
          n
          m
          (lower_store_subscr c i v (start table n))
  unfolding lower_store_subscr run
  store_subscr-Makes c i v table n m plain =
      let fn : String = "pyir_storeSubscr" in
      let type : FnType = record {
        returns = LlvmType.void;
        takes = LlvmType.ptr ∷ LlvmType.ptr ∷ LlvmType.ptr ∷ [];
      } in
      rw (get_fn_lem fn type (start table n)) (
        call_fn-Makes rt false fn (c ∷ i ∷ v ∷ []) _ n m m
          (start (with_fn fn type (lookup fn table) table) n) (omega arith) refl refl (λ u lt. refl)
          (args_of_plain rt _ m (c ∷ i ∷ v ∷ []) plain))

  -- An operator that is listed, when the code calls the listed function for every entry.
  known-Makes :
      (code : String → Build Rewritten) (calls : List (String × String)) (op : String)
      (vs : List Value) (table : Symbols) (n : ℕ) (m : Machine V S)
      → All (λ v. IsPlain (m.env v)) vs
      → All (λ p. code p.0 ≡ insert_runtime_func p.1 true vs) calls
      → MakesCall rt
          (operator_call (listed op calls) (map (λ v. Arg.value (m.env v)) vs))
          n
          m
          (code op (start table n))
  known-Makes code [] op vs table n m plain all = tt
  known-Makes code ((k, fn) ∷ rest) op vs table n m plain all = elim (Bool-cases (str_eq k op)) [
    | inl e ↦
        rw (e, sym ((eq_iff k op).0 e), all.0)
          (insert_runtime_func-Makes rt fn true vs table n m plain)
    | inr e ↦ rw e (known-Makes code rest op vs table n m plain all.1)
  ]

  pub lower-Makes :
      (library : Library) (hash : Hash) (name : OpName) (vs : List Value) (succs : List Successor)
      (table : Symbols) (n : ℕ) (m : Machine V S)
      → All (λ v. IsPlain (m.env v)) vs
      → All (λ v. v < n) vs
      → IsNamed hash table name
      → MakesCall rt (meaning name m.env vs) n m (lower library hash name vs succs (start table n))
  unfolding lower meaning
  lower-Makes library hash (OpName.load_fast name) vs succs table n m plain below named =
      insert_load_runtime_func-Makes rt "pyir_loadFast" name table n m refl named
  lower-Makes library hash (OpName.load_fast_and_clear name) vs succs table n m plain below named =
      insert_load_runtime_func-Makes rt "pyir_loadFastAndClear" name table n m refl named
  lower-Makes library hash (OpName.load_name name) vs succs table n m plain below named =
      insert_load_runtime_func-Makes rt "pyir_loadName" name table n m refl named
  lower-Makes library hash (OpName.store_fast name) (v ∷ []) succs table n m plain below named =
      insert_store_runtime_func-Makes rt "pyir_storeFast" name v table n m refl named below.0
        plain.0
  lower-Makes library hash (OpName.store_name name) (v ∷ []) succs table n m plain below named =
      insert_store_runtime_func-Makes rt "pyir_storeName" name v table n m refl named below.0
        plain.0
  lower-Makes library hash (OpName.load_const value) vs succs table n m plain below named =
      load_const-Makes rt hash value table n m named
  lower-Makes library hash (OpName.load_attr name) (v ∷ []) succs table n m plain below named =
      load_attr-Makes name v table n m named below.0 plain.0
  lower-Makes library hash OpName.store_subscr (c ∷ i ∷ v ∷ []) succs table n m plain below named =
      store_subscr-Makes c i v table n m plain
  lower-Makes library hash OpName.call (callee ∷ vs) succs table n m plain below named =
      lower_call-Makes rt callee vs table n m below.0 plain.0 below.1
  lower-Makes library hash (OpName.binary_op op) vs succs table n m plain below named =
      known-Makes (λ o. lower_operator (binary_fn o) vs) binary_calls op vs table n m plain
        (All-binary vs)
  lower-Makes library hash (OpName.compare_op op) vs succs table n m plain below named =
      known-Makes (λ o. lower_compare (stripped o) vs) compare_calls op vs table n m plain
        (All-compare vs)
  lower-Makes library hash (OpName.contains_op op) vs succs table n m plain below named =
      known-Makes (λ o. lower_operator (contains_fn o) vs) contains_calls op vs table n m plain
        (All-contains vs)
  lower-Makes library hash OpName.build_string vs succs table n m plain below named =
      build_array_type-Makes rt "pyir_buildString" vs table n m below
  lower-Makes library hash OpName.build_list vs succs table n m plain below named =
      build_array_type-Makes rt "pyir_buildList" vs table n m below
  lower-Makes library hash OpName.build_set vs succs table n m plain below named =
      build_array_type-Makes rt "pyir_buildSet" vs table n m below
  lower-Makes library hash OpName.build_map vs succs table n m plain below named =
      build_array_type-Makes rt "pyir_buildMap" vs table n m below
  lower-Makes library hash OpName.destroy_module vs succs table n m plain below named =
      insert_runtime_func-Makes rt "pyir_destroyModule" false vs table n m plain
  lower-Makes library hash OpName.push_scope vs succs table n m plain below named =
      insert_runtime_func-Makes rt "pyir_pushScope" false vs table n m plain
  lower-Makes library hash OpName.pop_scope vs succs table n m plain below named =
      insert_runtime_func-Makes rt "pyir_popScope" false vs table n m plain
  lower-Makes library hash OpName.to_bool vs succs table n m plain below named =
      insert_runtime_func-Makes rt "pyir_toBool" true vs table n m plain
  lower-Makes library hash OpName.unary_invert vs succs table n m plain below named =
      insert_runtime_func-Makes rt "pyir_unaryInvert" true vs table n m plain
  lower-Makes library hash OpName.unary_negative vs succs table n m plain below named =
      insert_runtime_func-Makes rt "pyir_unaryNegative" true vs table n m plain
  lower-Makes library hash OpName.unary_not vs succs table n m plain below named =
      insert_runtime_func-Makes rt "pyir_unaryNot" true vs table n m plain
  lower-Makes library hash OpName.format_simple vs succs table n m plain below named =
      insert_runtime_func-Makes rt "pyir_formatSimple" true vs table n m plain
  lower-Makes library hash OpName.list_extend vs succs table n m plain below named =
      insert_runtime_func-Makes rt "pyir_listExtend" false vs table n m plain
  lower-Makes library hash OpName.list_append vs succs table n m plain below named =
      insert_runtime_func-Makes rt "pyir_listAppend" false vs table n m plain
  lower-Makes library hash OpName.set_update vs succs table n m plain below named =
      insert_runtime_func-Makes rt "pyir_setUpdate" false vs table n m plain
  lower-Makes library hash OpName.set_add vs succs table n m plain below named =
      insert_runtime_func-Makes rt "pyir_setAdd" false vs table n m plain
  lower-Makes library hash OpName.map_add vs succs table n m plain below named =
      insert_runtime_func-Makes rt "pyir_mapAdd" false vs table n m plain
  lower-Makes library hash OpName.get_iter vs succs table n m plain below named =
      insert_runtime_func-Makes rt "pyir_getIter" true vs table n m plain
  lower-Makes library hash OpName.pop_iter vs succs table n m plain below named =
      insert_runtime_func-Makes rt "pyir_popIter" false vs table n m plain
  lower-Makes library hash _ vs succs table n m plain below named = tt
