-- ===== src/Frontend/Python.antt =====
-- What pycompile/src/bytecode/bytecode.cpp uses of CPython, as an interface, and the exceptions
-- that the front end throws.
use pycompile.Base.{ℕ, Bool, List, Option, none, some, String}
use pycompile.Base.Int.{ℤ}

-- The calls of the C API on objects of type `P`. `attr` is `PyObject_GetAttrString`, `none` where
-- that returns a null pointer. `stem` is `std::filesystem::path::stem`.
pub record Python (P : Type 0) : Type 0 where
  pub attr : P → String → Option P
  pub is_bool : P → Bool
  pub is_long : P → Bool
  pub is_float : P → Bool
  pub is_unicode : P → Bool
  pub is_tuple : P → Bool
  pub is_frozen_set : P → Bool
  pub is_code : P → Bool
  pub is_none : P → Bool
  -- `x == Py_True`, `PyObject_IsTrue(x) == 1`
  pub is_true_object : P → Bool
  pub is_true : P → Bool
  pub as_long : P → ℤ
  pub as_double : P → ℕ
  -- `none` where `PyUnicode_AsUTF8` returns a null pointer, as for a lone surrogate
  pub as_utf8 : P → Option String
  -- `PyTuple_GetItem` at every index below `PyTuple_Size`
  pub tuple_items : P → List P
  -- `PyObject_GetIter` and then `PyIter_Next` to the end
  pub iterate : P → Option (List P)
  -- `dis.get_instructions(code)`, `none` where an import or a call fails
  pub get_instructions : P → Option (List P)
  pub error_traceback : String
  pub stem : String → String

-- `undefined` is the use of a null pointer or of an empty `std::optional`, `bad_variant` is
-- `std::bad_variant_access`.
pub data Error : Type 0 where
  compile_error runtime_error : String → Error
  bad_variant undefined : Error

pub data Decoded (A : Type 0) : Type 0 where
  ok : A → Decoded A
  fail : Error → Decoded A

infixl 5 ◌>>=◌
abbrev pub ◌>>=◌ : {A B : Type 0} → Decoded A → (A → Decoded B) → Decoded B
ok a >>= f = f a
fail e >>= f = fail e

-- A pointer that is used without a test.
abbrev pub non_null : {A : Type 0} → Option A → Decoded A
non_null none = fail undefined
non_null (some a) = ok a

-- The result satisfies `Q`, if there is one.
abbrev pub Yields : {A : Type 0} → (A → Type 0) → Decoded A → Type 0
Yields Q (ok a) = Q a
Yields Q (fail e) = Unit

pub Yields-bind :
    {A B : Type 0} (P : A → Type 0) (Q : B → Type 0) (r : Decoded A) (f : A → Decoded B)
    → Yields P r
    → ((a : A) → P a → Yields Q (f a))
    → Yields Q (r >>= f)
Yields-bind P Q (ok a) f h k = k a h
Yields-bind P Q (fail e) f h k = tt
