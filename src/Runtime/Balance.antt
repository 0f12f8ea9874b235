-- ===== src/Runtime/Balance.antt =====
-- The invariant of reference counting: the count of an object is the number of references to it,
-- from other objects and from outside.
use pycompile.Base.{
  ℕ, zero, suc, ◌+◌, ◌≤◌, ◌≡◌, List, [], ◌∷◌, ◌++◌, Option, none, some, length, ◌==◌, if◌then◌else◌,
  arith,
}
use pycompile.Runtime.Heap.{
  Addr, Cell, Heap, cell_at, put, children, kids_of, size, int32_max, next_count,
}

abbrev pub count : Addr → List Addr → ℕ
count a [] = 0
count a (b ∷ bs) = (if a == b then 1 else 0) + count a bs

-- The references to an address from the objects of the heap.
abbrev pub heap_count : Addr → Heap → ℕ
heap_count a [] = 0
heap_count a (c ∷ h) = count a (kids_of c) + heap_count a h

-- A live object has as many references as it counts, at least one, and no more than an `int32_t`
-- counts; a freed one has none.
abbrev pub IsExact : Option Cell → ℕ → Type 0
IsExact none n = n ≡ 0
IsExact (some c) n = (c.refs ≡ n) × (1 ≤ n) × (n ≤ int32_max)

-- `roots` are the references from outside the heap.
abbrev pub IsBalanced : Heap → List Addr → Type 0
IsBalanced h roots = (a : Addr) → 3 ≤ a → IsExact (cell_at h a) (count a roots + heap_count a h)

-- Every count can grow by `n`.
abbrev pub Fits : ℕ → Option Cell → Type 0
Fits n none = Unit
Fits n (some c) = c.refs + n ≤ int32_max

abbrev pub HasRoom : ℕ → Heap → Type 0
HasRoom n h = (a : Addr) → Fits n (cell_at h a)

pub next_count_lem : (n : ℕ) → n + 1 ≤ int32_max → next_count n ≡ n + 1
next_count_lem n h = omega arith

pub count-append :
    (a : Addr) (first more : List Addr) → count a (first ++ more) ≡ count a first + count a more
count-append a [] more = omega arith
count-append a (first ∷ rest) more = omega (arith, count-append a rest more)

pub heap_count-put :
    (a b : Addr) (h : Heap) (o : Option Cell) {c : Cell}
    → cell_at h b ≡ some c
    → heap_count a (put h b o) + count a (children c.obj) ≡ heap_count a h + count a (kids_of o)
heap_count-put a b [] o e = cc
heap_count-put a zero (d ∷ h) o e = rw e (omega arith)
heap_count-put a (suc b) (d ∷ h) o e = omega (arith, heap_count-put a b h o e)

pub size-put :
    (b : Addr) (h : Heap) (o : Option Cell) {c : Cell}
    → cell_at h b ≡ some c
    → size (put h b o) + length (children c.obj) ≡ size h + length (kids_of o)
size-put b [] o e = cc
size-put zero (d ∷ h) o e = rw e (omega arith)
size-put (suc b) (d ∷ h) o e = omega (arith, size-put b h o e)

pub cell_at-put :
    (a b : Addr) (h : Heap) (o : Option Cell) {c : Cell}
    → cell_at h b ≡ some c
    → cell_at (put h b o) a ≡ (if a == b then o else cell_at h a)
cell_at-put a b [] o e = cc
cell_at-put zero zero (d ∷ h) o e = ground arith
cell_at-put (suc a) zero (d ∷ h) o e = ground arith
cell_at-put zero (suc b) (d ∷ h) o e = ground arith
cell_at-put (suc a) (suc b) (d ∷ h) o e = ground (arith, cell_at-put a b h o e)
