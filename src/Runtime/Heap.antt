-- ===== src/Runtime/Heap.antt =====
-- pystd/src/pytypes/py_object.hpp and .cpp with the destructors of the object classes: objects on
-- a heap, with their reference counts. An address is an index of the heap; the first three are the
-- immortal None, True and False. A `double_t` is kept as its 64-bit pattern.
use pycompile.Base.{
  ℕ, zero, suc, ◌+◌, ◌-◌, ◌%◌, Bool, List, [], ◌∷◌, ◌++◌, Option, none, some, String, length, ltb,
  ◌==◌, if◌then◌else◌,
}
use pycompile.Base.Int.{ℤ}

abbrev pub Addr : Type 0
Addr = ℕ

pub data Container : Type 0 where
  str_iter list_iter set_iter tuple_iter dict_iter : Container

-- One constructor for each class. A string is its bytes, a dict its pairs in the map's order, and
-- an iterator its container with the elements that are left.
pub data Obj : Type 0 where
  none_obj : Obj
  bool : Bool → Obj
  int : ℤ → Obj
  float : ℕ → Obj
  str : List ℕ → Obj
  list tuple set : List Addr → Obj
  dict : List (Addr × Addr) → Obj
  function : String → Obj
  method : String → Addr → Obj
  iter : Container → Addr → ℕ → Obj

-- The largest `int32_t`.
abbrev pub int32_max : ℕ
int32_max = 2147483647

-- The count is a `std::atomic<int32_t>`, kept as its 32-bit pattern: above `int32_max` it is
-- negative.
pub record Cell : Type 0 where
  pub refs : ℕ
  pub obj : Obj

-- A freed cell is `none`.
abbrev pub Heap : Type 0
Heap = List (Option Cell)

abbrev pub cell_at : Heap → Addr → Option Cell
cell_at [] a = none
cell_at (c ∷ h) zero = c
cell_at (c ∷ h) (suc a) = cell_at h a

abbrev pub put : Heap → Addr → Option Cell → Heap
put [] a o = []
put (c ∷ h) zero o = o ∷ h
put (c ∷ h) (suc a) o = c ∷ put h a o

-- `PyNone` and `PyBool` override `incref` and `decref` by functions that do nothing.
abbrev pub none_addr : Addr
none_addr = 0

abbrev pub true_addr : Addr
true_addr = 1

abbrev pub false_addr : Addr
false_addr = 2

abbrev pub is_immortal : Addr → Bool
is_immortal a = ltb a 3

abbrev pub pair_addrs : List (Addr × Addr) → List Addr
pair_addrs [] = []
pair_addrs ((k, v) ∷ kvs) = k ∷ v ∷ pair_addrs kvs

-- What the destructor of a class releases, in its order.
unfoldable pub children : Obj → List Addr
children (Obj.list xs) = xs
children (Obj.tuple xs) = xs
children (Obj.set xs) = xs
children (Obj.dict kvs) = pair_addrs kvs
children (Obj.method name self) = self ∷ []
children (Obj.iter kind container pos) = container ∷ []
children _ = []

-- One `decref`: the objects that the destructor goes on to release, and the heap. `fault` is a
-- dangling address, and `invalid` the exception "Invalid decref".
pub data Drop : Type 0 where
  fault invalid : Drop
  next : List Addr → Heap → Drop

abbrev pub drop_cell : Option Cell → Addr → Heap → Drop
drop_cell none a h = fault
drop_cell (some c) a h =
    if c.refs == 0
    then invalid
    else if ltb int32_max c.refs
    then invalid
    else if c.refs == 1
    then next (children c.obj) (put h a none)
    else next [] (put h a (some (record c { refs = c.refs - 1 })))

unfoldable pub drop_one : Addr → Heap → Drop
drop_one a h = if is_immortal a then next [] h else drop_cell (cell_at h a) a h

pub data Released : Type 0 where
  done : Heap → Released
  faulted invalid_decref out_of_fuel : Released

-- `decref` with the destructors that it runs: the objects still to be released, depth first.
unfoldable pub release : ℕ → List Addr → Heap → Released
unfolding drop_one
release f [] h = done h
release zero (a ∷ todo) h = out_of_fuel
release (suc f) (a ∷ todo) h = elim (drop_one a h) [
  | fault ↦ faulted
  | invalid ↦ invalid_decref
  | next kids h' ↦ release f (kids ++ todo) h'
]

-- `fetch_add(1)` wraps around.
abbrev pub next_count : ℕ → ℕ
next_count n = (n + 1) % 4294967296

-- `PyObj::incref`; `none` is a dangling address.
unfoldable pub incref : Addr → Heap → Option Heap
incref a h = if is_immortal a then some h else elim (cell_at h a) [
  | none ↦ none
  | some c ↦ some (put h a (some (record c { refs = next_count c.refs })))
]

-- The number of references that the objects of the heap hold: a bound on the rounds of `release`.
abbrev pub kids_of : Option Cell → List Addr
kids_of none = []
kids_of (some c) = children c.obj

abbrev pub size : Heap → ℕ
size [] = 0
size (c ∷ h) = length (kids_of c) + size h
