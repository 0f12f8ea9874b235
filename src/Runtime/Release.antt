-- ===== src/Runtime/Release.antt =====
-- `release`, the cascade of `decref`, from a heap whose counts are exact: one round, then all of them.
use mathlib.Core.Path.{subst}
use mathlib.Core.List.{append_assoc}
use pycompile.Base.{
  ℕ, zero, suc, ◌+◌, ◌≤◌, ◌≡◌, refl, sym, inl, inr, false, List, [], ◌∷◌, ◌++◌, Option, none, some,
  length, ◌==◌, arith, length-append, Bool-cases, Option-cases, ==_iff,
}
use pycompile.Runtime.Heap.{
  Addr, Cell, Heap, int32_max, cell_at, put, is_immortal, children, size, Drop, fault, invalid,
  next, drop_cell, drop_one, Released, done, faulted, invalid_decref, release,
}
use pycompile.Runtime.Balance.{
  count, heap_count, IsExact, IsBalanced, count-append, heap_count-put, size-put, cell_at-put,
}

-- What a `decref` should come to: no fault, exact counts for what is left to release, and fewer
-- references in all.
abbrev Dropped : Drop → List Addr → ℕ → Type 0
Dropped (next kids h) wl n = IsBalanced h (kids ++ wl) × (length kids + size h ≤ n)
Dropped fault wl n = ⊥
Dropped invalid wl n = ⊥

-- What the invariant says of a live object.
pub exact_at :
    (a : Addr) (n : ℕ) (h : Heap) (c : Cell)
    → cell_at h a ≡ some c
    → IsExact (cell_at h a) n
    → (c.refs ≡ n) × (1 ≤ n) × (n ≤ int32_max)
exact_at a n h c e x = subst (λ o. IsExact o n) e x

pub exact_none : (n : ℕ) (o : Option Cell) → o ≡ none → IsExact o n → n ≡ 0
exact_none n o e x = subst (λ o. IsExact o n) e x

pub count_self : (a : Addr) (wl : List Addr) → count a (a ∷ wl) ≡ suc (count a wl)
count_self a wl = ground arith

pub count_other : (a b : Addr) (wl : List Addr) → (a == b) ≡ false → count a (b ∷ wl) ≡ count a wl
count_other a b wl e = rw e (omega arith)

-- The other addresses of a heap in which one cell was replaced.
pub put-IsExact :
    (a b : Addr) (h : Heap) (o : Option Cell) (c : Cell) (n m : ℕ)
    → cell_at h a ≡ some c
    → (b == a) ≡ false
    → n ≡ m
    → IsExact (cell_at h b) n
    → IsExact (cell_at (put h a o) b) m
put-IsExact a b h o c n m e ne eq x = rw (cell_at-put b a h o e, ne, sym eq) x

freed_self :
    (a : Addr) (wl : List Addr) (h : Heap) (c : Cell)
    → cell_at h a ≡ some c
    → c.refs ≡ 1
    → IsExact (cell_at h a) (count a (a ∷ wl) + heap_count a h)
    → count a (children c.obj ++ wl) + heap_count a (put h a none) ≡ 0
freed_self a wl h c e one x =
    let live = (exact_at a _ h c e x).0 in
    let put_count = heap_count-put a a h none e in
    omega (arith, count-append a (children c.obj) wl, count_self a wl)

-- The invariant after a cell was replaced, from what holds of that cell and of the others.
pub IsBalanced-split :
    (a : Addr) (h : Heap) (roots : List Addr)
    → IsExact (cell_at h a) (count a roots + heap_count a h)
    → ((b : Addr)
        → (b == a) ≡ false
        → 3 ≤ b
        → IsExact (cell_at h b) (count b roots + heap_count b h))
    → IsBalanced h roots
IsBalanced-split a h roots self others b ge = elim (Bool-cases (b == a)) [
  | inr ne ↦ others b ne ge
  | inl same ↦
      subst (λ d. IsExact (cell_at h d) (count d roots + heap_count d h))
        (sym ((==_iff b a).0 same)) self
]

pub freed-IsBalanced :
    (a : Addr) (wl : List Addr) (h : Heap) (c : Cell)
    → cell_at h a ≡ some c
    → c.refs ≡ 1
    → 3 ≤ a
    → IsBalanced h (a ∷ wl)
    → IsBalanced (put h a none) (children c.obj ++ wl)
freed-IsBalanced a wl h c e one ge bal =
    IsBalanced-split a (put h a none) (children c.obj ++ wl)
      (rw (cell_at-put a a h none e, (==_iff a a).1 refl) (freed_self a wl h c e one (bal a ge)))
      λ b ne b_ge.
        put-IsExact a b h none c (count b (a ∷ wl) + heap_count b h) _ e ne
          (let put_count = heap_count-put b a h none e in
            omega (arith, count-append b (children c.obj) wl, count_other b a wl ne))
          (bal b b_ge)

-- A cell whose count changes and whose object does not, when the references to it change as much.
pub recount-IsBalanced :
    (a : Addr) (xs ys : List Addr) (h : Heap) (c : Cell) (n : ℕ)
    → cell_at h a ≡ some c
    → n ≡ count a ys + heap_count a h
    → 1 ≤ n
    → n ≤ int32_max
    → ((b : Addr) → (b == a) ≡ false → count b xs ≡ count b ys)
    → IsBalanced h xs
    → IsBalanced (put h a (some (record c { refs = n }))) ys
recount-IsBalanced a xs ys h c n e exact live fits same bal =
    let d = record c { refs = n } in
    IsBalanced-split a (put h a (some d)) ys
      (rw (cell_at-put a a h (some d) e, (==_iff a a).1 refl)
        (let put_count = heap_count-put a a h (some d) e in
          (omega arith, omega arith, omega arith)))
      λ b ne b_ge.
        put-IsExact a b h (some d) c (count b xs + heap_count b h) _ e ne
          (let put_count = heap_count-put b a h (some d) e in let others = same b ne in omega arith)
          (bal b b_ge)

drop_last :
    (a : Addr) (h : Heap) (c : Cell)
    → c.refs ≡ 1
    → drop_cell (some c) a h ≡ next (children c.obj) (put h a none)
drop_last a h c e = rw e

drop_shared :
    (a : Addr) (h : Heap) (c : Cell) (n : ℕ)
    → c.refs ≡ suc (suc n)
    → suc (suc n) ≤ int32_max
    → drop_cell (some c) a h ≡ next [] (put h a (some (record c { refs = suc n })))
drop_shared a h c n e fits = rw e (ground arith)

-- A live object: the last reference frees it, any other is counted off.
drop_live-Dropped :
    (a : Addr) (wl : List Addr) (h : Heap) (c : Cell) (n : ℕ)
    → cell_at h a ≡ some c
    → c.refs ≡ n
    → 3 ≤ a
    → n ≤ int32_max
    → (n ≡ count a (a ∷ wl) + heap_count a h)
    → IsBalanced h (a ∷ wl)
    → Dropped (drop_cell (some c) a h) wl (size h)
drop_live-Dropped a wl h c zero e refs ge fits live bal = absurd (omega (arith, count_self a wl))
drop_live-Dropped a wl h c (suc zero) e refs ge fits live bal =
    rw (drop_last a h c refs)
      (freed-IsBalanced a wl h c e refs ge bal, (let sizes = size-put a h none e in omega arith))
drop_live-Dropped a wl h c (suc (suc n)) e refs ge fits live bal =
    rw (drop_shared a h c n refs fits) (
      recount-IsBalanced a (a ∷ wl) wl h c (suc n) e (omega (arith, count_self a wl)) (omega arith)
          (omega arith) (λ b ne. count_other b a wl ne) bal,
      (let sizes = size-put a h (some (record c { refs = suc n })) e in omega arith),
    )

-- One `decref` of a counted reference keeps the counts exact.
drop_cell-Dropped :
    (a : Addr) (wl : List Addr) (h : Heap)
    → 3 ≤ a
    → IsBalanced h (a ∷ wl)
    → Dropped (drop_cell (cell_at h a) a h) wl (size h)
drop_cell-Dropped a wl h ge bal = elim (Option-cases (cell_at h a)) [
  | inl e ↦
      let none_left = exact_none _ (cell_at h a) e (bal a ge) in
      absurd (omega (arith, count_self a wl))
  | inr (c, e) ↦
      let live = exact_at a _ h c e (bal a ge) in
      rw e (
        drop_live-Dropped a wl h c c.refs e refl ge
          (let fits = live.2 in let same = live.0 in omega arith) live.0 bal)
]

pub drop_one-Dropped :
    (a : Addr) (wl : List Addr) (h : Heap)
    → IsBalanced h (a ∷ wl)
    → Dropped (drop_one a h) wl (size h)
unfolding drop_one
drop_one-Dropped a wl h bal = elim (Bool-cases (is_immortal a)) [
  | inl low ↦ rw low (
    (λ b ge.
        subst (λ n. IsExact (cell_at h b) (n + heap_count b h)) (count_other b a wl (ground arith))
          (bal b ge)),
    omega arith,
  )
  | inr high ↦ rw high (drop_cell-Dropped a wl h (ground arith) bal)
]

-- What a `decref` of every object of a list should come to.
abbrev pub IsReleased : Released → List Addr → Type 0
IsReleased (done h) roots = IsBalanced h roots
IsReleased _ roots = ⊥

-- When the counts are exact, with the references that are to be released among the roots, `decref`
-- of all of them, destructors included, ends: fuel for each of them and for each reference held
-- in the heap is enough. No freed object is used, no count of 0 is met, and the counts are exact
-- for the roots that remain.
pub release-IsBalanced :
    (fuel : ℕ) (todo roots : List Addr) (h : Heap)
    → length todo + size h ≤ fuel
    → IsBalanced h (todo ++ roots)
    → IsReleased (release fuel todo h) roots
unfolding release
release-IsBalanced f [] roots h enough bal = bal
release-IsBalanced zero (a ∷ todo) roots h enough bal = absurd (omega arith)
release-IsBalanced (suc f) (a ∷ todo) roots h enough bal =
    go (drop_one a h) (drop_one-Dropped a (todo ++ roots) h bal) λ kids h' b le.
      let sums = length-append kids todo in
      release-IsBalanced f (kids ++ todo) roots h' (omega arith)
        (subst (IsBalanced h') (sym (append_assoc kids todo roots)) b)
  where
    go :
        (d : Drop)
        → Dropped d (todo ++ roots) (size h)
        → ((kids : List Addr) (h' : Heap)
            → IsBalanced h' (kids ++ (todo ++ roots))
            → length kids + size h' ≤ size h
            → IsReleased (release f (kids ++ todo) h') roots)
        → IsReleased
            (elim d [
              | fault ↦ faulted
              | invalid ↦ invalid_decref
              | next kids h' ↦ release f (kids ++ todo) h'
            ])
            roots
    go fault x k = absurd x
    go invalid x k = absurd x
    go (next kids h') x k = k kids h' x.0 x.1
