-- ===== src/Runtime/Survivors.antt =====
-- What is left of a heap when references are given up: `decref` of pystd/src/pytypes/py_object.cpp
-- frees objects and changes counts, and nothing else.
use mathlib.Core.Path.{subst}
use pycompile.Base.{
  ℕ, zero, suc, ◌+◌, ◌-◌, ◌≤◌, ◌≡◌, refl, sym, ap, ◌∙◌, List, [], ◌∷◌, ◌++◌, Option, none, some,
  length, ltb, ◌==◌, Bool-cases, Option-cases, ==_iff, inl, inr, arith,
}
use pycompile.Runtime.Heap.{
  Addr, Obj, Cell, Heap, cell_at, put, size, is_immortal, int32_max, Drop, fault, invalid, next,
  drop_cell, drop_one, Released, done, faulted, invalid_decref, release,
}
use pycompile.Runtime.Balance.{count, IsBalanced, cell_at-put}
use pycompile.Runtime.Release.{exact_none, IsReleased, release-IsBalanced}
use pycompile.Runtime.State.{State, Outcome, Run, and_then, with_released, decref}
use pycompile.Runtime.Subscripts.{and_then_assoc}
use pycompile.Runtime.Builtins.{decref_args}

-- The addresses stay, and an object that is still there is the same.
abbrev pub Outlives : Heap → Heap → Type 0
Outlives h h' =
    (length h' ≡ length h)
    × ((a : Addr) (d : Cell)
        → cell_at h' a ≡ some d
        → (c : Cell) × (cell_at h a ≡ some c) × (d.obj ≡ c.obj))

Outlives-refl : (h : Heap) → Outlives h h
Outlives-refl h = (refl, λ a d e. (d, e, refl))

pub Outlives-trans : (h h' h'' : Heap) → Outlives h h' → Outlives h' h'' → Outlives h h''
Outlives-trans h h' h'' first second = (
  second.0 ∙ first.0,
  λ a d e.
      let (c, f, same) = second.1 a d e in
      let (b, g, same') = first.1 a c f in (b, g, same ∙ same'),
)

length-put : (h : Heap) (a : Addr) (o : Option Cell) → length (put h a o) ≡ length h
length-put [] a o = refl
length-put (c ∷ h) zero o = refl
length-put (c ∷ h) (suc a) o = ap suc (length-put h a o)

-- A freed cell, or one with the same object.
abbrev SameObj : Cell → Option Cell → Type 0
SameObj c none = Unit
SameObj c (some d) = d.obj ≡ c.obj

abbrev obj_or : Cell → Option Cell → Obj
obj_or c none = c.obj
obj_or c (some b) = b.obj

same_at : (c d : Cell) (o : Option Cell) → SameObj c o → o ≡ some d → d.obj ≡ c.obj
same_at c d none x e = absurd (cc e)
same_at c d (some b) x e = ap (obj_or c) (sym e) ∙ x

put-Outlives :
    (a : Addr) (h : Heap) (o : Option Cell) (c : Cell)
    → cell_at h a ≡ some c
    → SameObj c o
    → Outlives h (put h a o)
put-Outlives a h o c e x = (
  length-put h a o,
  λ b d f. elim (Bool-cases (b == a)) [
    | inl same ↦
        (let here = rw (cell_at-put b a h o e, same) at f in
          (c, ap (cell_at h) ((==_iff b a).0 same) ∙ e, same_at c d o x here))
    | inr other ↦ (let there = rw (cell_at-put b a h o e, other) at f in (d, there, refl))
  ],
)

abbrev DropOutlives : Heap → Drop → Type 0
DropOutlives h (next kids h') = Outlives h h'
DropOutlives h _ = Unit

drop_cell-Outlives :
    (o : Option Cell) (a : Addr) (h : Heap) → cell_at h a ≡ o → DropOutlives h (drop_cell o a h)
drop_cell-Outlives none a h e = tt
drop_cell-Outlives (some c) a h e = elim (Bool-cases (c.refs == 0)) [
  | inl z ↦ rw z tt
  | inr z ↦ elim (Bool-cases (ltb int32_max c.refs)) [
    | inl g ↦ rw (z, g) tt
    | inr g ↦ elim (Bool-cases (c.refs == 1)) [
      | inl f ↦ rw (z, g, f) (put-Outlives a h none c e tt)
      | inr f ↦ rw (z, g, f) (put-Outlives a h (some (record c { refs = c.refs - 1 })) c e refl)
    ]
  ]
]

drop_one-Outlives : (a : Addr) (h : Heap) → DropOutlives h (drop_one a h)
unfolding drop_one
drop_one-Outlives a h = elim (Bool-cases (is_immortal a)) [
  | inl e ↦ rw e (Outlives-refl h)
  | inr e ↦ rw e (drop_cell-Outlives (cell_at h a) a h refl)
]

abbrev ReleasedOutlives : Heap → Released → Type 0
ReleasedOutlives h (done h') = Outlives h h'
ReleasedOutlives h _ = Unit

ReleasedOutlives-trans :
    (h h' : Heap) (r : Released) → Outlives h h' → ReleasedOutlives h' r → ReleasedOutlives h r
ReleasedOutlives-trans h h' (done h'') first second = Outlives-trans h h' h'' first second
ReleasedOutlives-trans h h' _ first second = tt

release-Outlives :
    (fuel : ℕ) (todo : List Addr) (h : Heap) → ReleasedOutlives h (release fuel todo h)
unfolding release
release-Outlives f [] h = Outlives-refl h
release-Outlives zero (a ∷ todo) h = tt
release-Outlives (suc f) (a ∷ todo) h =
    go (drop_one a h) (drop_one-Outlives a h) λ kids h'. release-Outlives f (kids ++ todo) h'
  where
    go :
        (d : Drop)
        → DropOutlives h d
        → ((kids : List Addr) (h' : Heap) → ReleasedOutlives h' (release f (kids ++ todo) h'))
        → ReleasedOutlives h (elim d [
          | fault ↦ faulted
          | invalid ↦ invalid_decref
          | next kids h' ↦ release f (kids ++ todo) h'
        ])
    go fault x k = tt
    go invalid x k = tt
    go (next kids h') x k = ReleasedOutlives-trans h h' (release f (kids ++ todo) h') x (k kids h')

-- `decref` of a counted reference, and what follows it on the heap that is left.
pub after_decref_kept :
    {A : Type 0} (C : Outcome A → Type 0) (a : Addr) (roots : List Addr) (s : State) (k : Run A)
    → IsBalanced s.heap (a ∷ roots)
    → ((h : Heap) → Outlives s.heap h → IsBalanced h roots → C (k (record s { heap = h })))
    → C (and_then (decref a s) (λ _. k))
unfolding decref
after_decref_kept C a roots s k bal f =
    go (release (1 + size s.heap) (a ∷ []) s.heap)
      (release-IsBalanced (1 + size s.heap) (a ∷ []) roots s.heap (omega arith) bal)
      (release-Outlives (1 + size s.heap) (a ∷ []) s.heap)
  where
    go :
        (r : Released)
        → IsReleased r roots
        → ReleasedOutlives s.heap r
        → C (and_then (with_released r s) (λ _. k))
    go (done h) x kept = f h kept x
    go _ x kept = absurd x

-- The same for `decrefArgs`.
pub after_args_kept :
    {A : Type 0} (C : Outcome A → Type 0) (args more : List Addr) (s : State) (k : Run A)
    → IsBalanced s.heap (args ++ more)
    → ((h : Heap) → Outlives s.heap h → IsBalanced h more → C (k (record s { heap = h })))
    → C (and_then (decref_args args s) (λ _. k))
unfolding decref_args
after_args_kept C [] more s k bal f = f s.heap (Outlives-refl s.heap) bal
after_args_kept C (a ∷ args) more s k bal f =
    subst C (sym (and_then_assoc (decref a s) (λ _. decref_args args) (λ _. k))) (
      after_decref_kept C a (args ++ more) s (λ t. and_then (decref_args args t) (λ _. k)) bal
        λ h kept bal'.
          after_args_kept C args more (record s { heap = h }) k bal'
            λ h' kept' bal''. f h' (Outlives-trans s.heap h h' kept kept') bal'')

-- An object to which a reference is left is still there.
pub survivor :
    (a : Addr) (h h' : Heap) (roots : List Addr) (c : Cell)
    → 3 ≤ a
    → cell_at h a ≡ some c
    → Outlives h h'
    → 1 ≤ count a roots
    → IsBalanced h' roots
    → (d : Cell) × (cell_at h' a ≡ some d) × (d.obj ≡ c.obj)
survivor a h h' roots c ge e kept held bal = elim (Option-cases (cell_at h' a)) [
  | inl gone ↦ (let none_left = exact_none _ (cell_at h' a) gone (bal a ge) in absurd (omega arith))
  | inr (d, f) ↦ (let (b, g, same) = kept.1 a d f in (d, f, same ∙ ap (obj_or c) (sym g ∙ e)))
]
