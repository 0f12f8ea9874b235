-- ===== src/Lowering/Stores.antt =====
-- The symbols that the patterns of pycompile/src/lowering add, and the code that fills an array.
use text.Mathlib.Text.{◌==◌ as str_eq, starts_with}
use text.Mathlib.TextEquality.{eq_iff}
use text.Mathlib.TextPositions.{starts_with-append, eq_refl}
use Prim.Native.String.{◌++◌ as str_append}
use mathlib.Core.Path.{subst}
use pycompile.Base.{
  ◌≡◌, ◌⊎◌, inl, inr, refl, sym, true, false, ◌∷◌, Option, none, some, String, Bool-cases,
  Option-cases,
}
use pycompile.Lowering.Rewriter.{
  FnType, Symbol, Symbols, lookup, Rewriter, built, create, LlvmOp, get_or_insert_runtime_fn,
  get_or_insert_string_constant,
}

-- The table with a runtime function, and with a string constant.
abbrev pub with_fn : String → FnType → Option Symbol → Symbols → Symbols
with_fn name type (some (Symbol.declared found)) table = table
with_fn name type _ table = (name, Symbol.declared type) ∷ table

abbrev pub with_string : String → String → Option Symbol → Symbols → Symbols
with_string name text (some found) table = table
with_string name text none table = (name, Symbol.string_constant text) ∷ table

pub get_fn_lem :
    (name : String) (type : FnType) (r : Rewriter)
    → get_or_insert_runtime_fn name type r
      ≡ built tt (record r { symbols = with_fn name type (lookup name r.symbols) r.symbols })
unfolding get_or_insert_runtime_fn
get_fn_lem name type r = elim (Option-cases (lookup name r.symbols)) [
  | inl e ↦ rw e refl
  | inr (Symbol.declared found, e) ↦ rw e refl
  | inr (Symbol.string_constant text, e) ↦ rw e refl
  | inr (Symbol.other, e) ↦ rw e refl
]

pub get_string_lem :
    (name text : String) (r : Rewriter)
    → get_or_insert_string_constant name text r
      ≡ create
          (LlvmOp.address_of name)
          (record r { symbols = with_string name text (lookup name r.symbols) r.symbols })
unfolding get_or_insert_string_constant
get_string_lem name text r = elim (Option-cases (lookup name r.symbols)) [
  | inl e ↦ rw e refl
  | inr (found, e) ↦ rw e refl
]

-- The name is free, or stands for the text already.
abbrev pub Agrees : Symbols → String → String → Type 0
Agrees table name text =
    (lookup name table ≡ none) ⊎ (lookup name table ≡ some (Symbol.string_constant text))

pub other_name :
    (fn prefix name : String)
    → starts_with fn prefix ≡ false
    → str_eq fn (str_append prefix name) ≡ false
other_name fn prefix name differs = elim (Bool-cases (str_eq fn (str_append prefix name))) [
  | inr ne ↦ ne
  | inl same ↦
      (let eq = (eq_iff fn (str_append prefix name)).0 same in
        let starts =
          subst (λ t. starts_with t prefix ≡ true) (sym eq) (starts_with-append prefix name) in
        absurd (cc (starts, differs)))
]

pub lookup-with_string :
    (name text : String) (table : Symbols)
    → Agrees table name text
    → lookup name (with_string name text (lookup name table) table)
      ≡ some (Symbol.string_constant text)
unfolding lookup
lookup-with_string name text table (inl e) = rw (e, eq_refl name) refl
lookup-with_string name text table (inr e) = rw e e

-- A function that has another name does not change what a name stands for.
pub lookup-with_fn :
    (fn name : String) (type : FnType) (table : Symbols)
    → str_eq fn name ≡ false
    → lookup name (with_fn fn type (lookup fn table) table) ≡ lookup name table
unfolding lookup
lookup-with_fn fn name type table ne = elim (Option-cases (lookup fn table)) [
  | inl e ↦ rw (e, ne) refl
  | inr (Symbol.declared found, e) ↦ rw e refl
  | inr (Symbol.string_constant text, e) ↦ rw (e, ne) refl
  | inr (Symbol.other, e) ↦ rw (e, ne) refl
]

-- The table after a runtime function and a string constant.
abbrev pub names_table : String → String → String → FnType → Symbols → Symbols
names_table fn name text type table =
    let first = with_fn fn type (lookup fn table) table in
    with_string name text (lookup name first) first

pub lookup-names :
    (fn name text : String) (type : FnType) (table : Symbols)
    → str_eq fn name ≡ false
    → Agrees table name text
    → lookup name (names_table fn name text type table) ≡ some (Symbol.string_constant text)
lookup-names fn name text type table ne agrees =
    lookup-with_string name text (with_fn fn type (lookup fn table) table) (
      subst (λ o. (o ≡ none) ⊎ (o ≡ some (Symbol.string_constant text)))
        (sym (lookup-with_fn fn name type table ne)) agrees)
