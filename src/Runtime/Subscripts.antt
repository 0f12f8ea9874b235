-- ===== src/Runtime/Subscripts.antt =====
-- Subscripts of lists and tuples: the index that is read, and the reference counts.
use mathlib.Core.Path.{subst}
use pycompile.Base.{
  ℕ, zero, suc, ◌≢◌, ◌∙◌, Bool, true, false, ◌+◌, ◌≤◌, ◌<◌, ◌≡◌, ◌↔◌, refl, sym, ap, List, [], ◌∷◌,
  Option, none, some, String, length, get_elem?, arith,
}
use pycompile.Base.Int.{ℤ, pos, negsuc}
use pycompile.Runtime.Heap.{Addr, Obj, Cell, Heap, cell_at, children, size, Released, done, release}
use pycompile.Runtime.Balance.{count, heap_count, IsBalanced, HasRoom}
use pycompile.Runtime.Release.{IsReleased, release-IsBalanced}
use pycompile.Runtime.State.{
  State, Exception, Outcome, ok, thrown, undefined, Run, and_then, ◌>>◌, pure, with_released,
  decref, add_ref,
}
use pycompile.Runtime.Sequences.{
  index_in, element, share, list_index, list_idx, tuple_index, tuple_idx, settle, pyir_idx, obj_at,
}
use pycompile.Runtime.Variables.{IsBalanced-count, incref-IsBalanced}

-- The position that an index denotes in a sequence of `n` elements.
abbrev pub Denotes : ℤ → ℕ → ℕ → Type 0
Denotes (pos i) n k = (i ≡ k) × (k < n)
Denotes (negsuc i) n k = suc i + k ≡ n

-- An index reads the position that it denotes: itself when it is below the length, and counted
-- from the end, where -1 is the last, when it is negative. Else it is out of range.
pub index_in_iff : (i : ℤ) (n k : ℕ) → (index_in i n ≡ some k) ↔ Denotes i n k
unfolding index_in
index_in_iff (pos i) n k = ground arith
index_in_iff (negsuc i) n k = ground arith

-- The element that an index object denotes.
abbrev pub IsElement : List Addr → Obj → Addr → Type 0
IsElement xs (Obj.int i) x = (k : ℕ) × Denotes i (length xs) k × (get_elem? xs k ≡ some x)
IsElement xs _ x = ⊥

-- An int denotes no element, and an IndexError says so; any other object is a TypeError.
abbrev pub IsRefusal : List Addr → Obj → Exception → Type 0
IsRefusal xs (Obj.int i) (Exception.index_error message) = (k : ℕ) → ¬ Denotes i (length xs) k
IsRefusal xs (Obj.int i) _ = ⊥
IsRefusal xs _ (Exception.type_error message) = Unit
IsRefusal xs _ _ = ⊥

-- An element with a fresh reference for the caller, or the exception, with exact counts.
abbrev pub IsShared : List Addr → Obj → List Addr → Outcome Addr → Type 0
IsShared xs index roots (ok x s) = IsElement xs index x × IsBalanced s.heap (x ∷ roots)
IsShared xs index roots (thrown e s) = IsRefusal xs index e × IsBalanced s.heap roots
IsShared xs index roots undefined = ⊥

pub after_decref :
    {A : Type 0} (C : Outcome A → Type 0) (a : Addr) (roots : List Addr) (s : State) (k : Run A)
    → IsBalanced s.heap (a ∷ roots)
    → ((h : Heap) → IsBalanced h roots → C (k (record s { heap = h })))
    → C (and_then (decref a s) (λ _. k))
unfolding decref
after_decref C a roots s k bal f =
    go (release (1 + size s.heap) (a ∷ []) s.heap)
      (release-IsBalanced (1 + size s.heap) (a ∷ []) roots s.heap (omega arith) bal)
  where
    go : (r : Released) → IsReleased r roots → C (and_then (with_released r s) (λ _. k))
    go (done h) x = f h x
    go _ x = absurd x

pub and_then_assoc :
    {A B D : Type 0} (r : Outcome A) (f : A → Run B) (g : B → Run D)
    → and_then (and_then r f) g ≡ and_then r (λ a s. and_then (f a s) g)
and_then_assoc (ok a s) f g = refl
and_then_assoc (thrown e s) f g = refl
and_then_assoc undefined f g = refl

after_both :
    {A : Type 0} (C : Outcome A → Type 0) (a b : Addr) (roots : List Addr) (s : State) (k : Run A)
    → IsBalanced s.heap (a ∷ b ∷ roots)
    → ((h : Heap) → IsBalanced h roots → C (k (record s { heap = h })))
    → C (and_then ((decref a >> decref b) s) (λ _. k))
after_both C a b roots s k bal f =
    subst C (sym (and_then_assoc (decref a s) (λ _. decref b) (λ _. k))) (
      after_decref C a (b ∷ roots) s (λ t. and_then (decref b t) (λ _. k)) bal
        λ h bal'. after_decref C b roots (record s { heap = h }) k bal' f)

rotate :
    (b x i o : Addr) (more : List Addr) → count b (x ∷ i ∷ o ∷ more) ≡ count b (i ∷ o ∷ x ∷ more)
rotate b x i o more = omega arith

-- `pyir_idx` gives up the references to the object and to the index on every way out, once `idx`
-- of the object has returned a counted reference or thrown.
pub pyir_idx-IsShared :
    (xs : List Addr) (index : Obj) (method : Addr → Run Addr) (obj idx : Addr) (s : State)
    (more : List Addr)
    → IsShared xs index (idx ∷ obj ∷ more) (method idx s)
    → IsShared xs index more (pyir_idx method obj idx s)
unfolding pyir_idx
pyir_idx-IsShared xs index method obj idx s more h = go (method idx s) h
  where
    go :
        (r : Outcome Addr)
        → IsShared xs index (idx ∷ obj ∷ more) r
        → IsShared xs index more (settle r (decref idx >> decref obj))
    go (ok x t) h =
        after_both (IsShared xs index more) idx obj (x ∷ more) t (pure x)
          (IsBalanced-count t.heap (x ∷ idx ∷ obj ∷ more) (idx ∷ obj ∷ x ∷ more)
            (λ b. rotate b x idx obj more) h.1)
          λ h' bal. (h.0, bal)
    go (thrown e t) h =
        after_both (IsShared xs index more) idx obj more t (λ u. thrown e u) h.1
          λ h' bal. (h.0, bal)
    go undefined h = absurd h

-- What a live object holds is referred to.
pub heap_count-children :
    (x a : Addr) (h : Heap) (c : Cell)
    → cell_at h a ≡ some c
    → count x (children c.obj) ≤ heap_count x h
heap_count-children x a [] c e = absurd (cc e)
heap_count-children x zero (d ∷ h) c e = rw e (omega arith)
heap_count-children x (suc a) (d ∷ h) c e = omega (arith, heap_count-children x a h c e)

pub count-get_elem? : (x : Addr) (xs : List Addr) (i : ℕ) → get_elem? xs i ≡ some x → 1 ≤ count x xs
count-get_elem? x [] i e = absurd (cc e)
count-get_elem? x (y ∷ xs) zero e = ground arith
count-get_elem? x (y ∷ xs) (suc i) e = omega (arith, count-get_elem? x xs i e)

count-element : (x : Addr) (xs : List Addr) (o : Option ℕ) → element xs o ≡ some x → 1 ≤ count x xs
count-element x xs none e = absurd (cc e)
count-element x xs (some i) e = count-get_elem? x xs i e

share-IsShared :
    (xs : List Addr) (index : Obj) (message : String) (o : Option Addr) (s : State)
    (roots : List Addr)
    → ((x : Addr) → o ≡ some x → (1 ≤ heap_count x s.heap) × IsElement xs index x)
    → (o ≡ none → IsRefusal xs index (Exception.index_error message))
    → HasRoom 1 s.heap
    → IsBalanced s.heap roots
    → IsShared xs index roots (share message o s)
unfolding add_ref
share-IsShared xs index message none s roots held refused room bal = (refused refl, bal)
share-IsShared xs index message (some x) s roots held refused room bal =
    incref-IsBalanced x s.heap roots s (IsShared xs index roots)
      (let one = (held x refl).0 in omega arith) room bal λ h' bal'. ((held x refl).1, bal')

-- The element at an index, and no element.
element-some :
    (xs : List Addr) (i : ℤ) (x : Addr) (o : Option ℕ)
    → index_in i (length xs) ≡ o
    → element xs o ≡ some x
    → IsElement xs (Obj.int i) x
element-some xs i x none e f = absurd (cc f)
element-some xs i x (some k) e f = (k, (index_in_iff i (length xs) k).0 e, f)

get_elem?-length : (xs : List Addr) (k : ℕ) → k < length xs → get_elem? xs k ≢ none
get_elem?-length [] k lt e = absurd (omega arith)
get_elem?-length (x ∷ xs) zero lt e = absurd (cc e)
get_elem?-length (x ∷ xs) (suc k) lt e = get_elem?-length xs k (omega arith) e

Denotes-less : (i : ℤ) (n k : ℕ) → Denotes i n k → k < n
Denotes-less (pos i) n k d = d.1
Denotes-less (negsuc i) n k d = omega arith

element-none :
    (xs : List Addr) (i : ℤ)
    → element xs (index_in i (length xs)) ≡ none
    → (k : ℕ) → ¬ Denotes i (length xs) k
element-none xs i e k d =
    let found = (index_in_iff i (length xs) k).1 d in
    get_elem?-length xs k (Denotes-less i (length xs) k d) (rw found at e)

-- The elements of a live list or tuple are referred to.
count-held :
    (xs : List Addr) (obj x : Addr) (o : Option ℕ) (h : Heap) (c : Cell)
    → cell_at h obj ≡ some c
    → children c.obj ≡ xs
    → element xs o ≡ some x
    → 1 ≤ heap_count x h
count-held xs obj x o h c e holds g =
    let inside = count-element x xs o g in
    let kept = rw holds at (heap_count-children x obj h c e) in omega arith

-- A live list, or a live tuple, with its `idx`.
abbrev pub sequence : Bool → List Addr → Obj
sequence false xs = Obj.list xs
sequence true xs = Obj.tuple xs

unfoldable pub idx_of : Bool → List Addr → Addr → Run Addr
unfolding list_idx tuple_idx
idx_of false xs = list_idx xs
idx_of true xs = tuple_idx xs

children-sequence : (b : Bool) (xs : List Addr) → children (sequence b xs) ≡ xs
unfolding children
children-sequence false xs = refl
children-sequence true xs = refl

module _ (is_tuple : Bool) (xs : List Addr) (obj : Addr) (s : State) (c : Cell) (roots : List Addr)
    (live : cell_at s.heap obj ≡ some c) (is_sequence : c.obj ≡ sequence is_tuple xs)
    (room : HasRoom 1 s.heap) (bal : IsBalanced s.heap roots) where
  shared :
      (message : String) (i : ℤ)
      → IsShared xs (Obj.int i) roots (share message (element xs (index_in i (length xs))) s)
  shared message i =
      share-IsShared xs (Obj.int i) message (element xs (index_in i (length xs))) s roots
        (λ x e. (
          count-held xs obj x (index_in i (length xs)) s.heap c live
              (ap children is_sequence ∙ children-sequence is_tuple xs) e,
          element-some xs i x (index_in i (length xs)) refl e,
        ))
        (element-none xs i) room bal

  list_index-IsShared : (o : Obj) → IsShared xs o roots (list_index xs o s)
  list_index-IsShared (Obj.int i) = shared "list index out of range" i
  list_index-IsShared _ = (tt, bal)

  tuple_index-IsShared : (o : Obj) → IsShared xs o roots (tuple_index xs o s)
  tuple_index-IsShared (Obj.int i) = shared "tuple index out of range" i
  tuple_index-IsShared _ = (tt, bal)

  idx_of-IsShared :
      (kind : Bool) (idx : Addr) (d : Cell)
      → cell_at s.heap idx ≡ some d
      → IsShared xs d.obj roots (idx_of kind xs idx s)
  unfolding idx_of list_idx tuple_idx obj_at
  idx_of-IsShared false idx d e = rw e (list_index-IsShared d.obj)
  idx_of-IsShared true idx d e = rw e (tuple_index-IsShared d.obj)

-- A subscript of a live list or tuple, with any live object as the index, when the counts are exact
-- and each can grow by one: the caller's references to both are given up. An int that denotes an
-- element returns that element with a counted reference, any other int throws an IndexError, and any
-- other object a TypeError; the counts are exact each way, and nothing freed is used.
pub pyir_idx-IsElement :
    (is_tuple : Bool) (xs : List Addr) (obj idx : Addr) (s : State) (c d : Cell) (more : List Addr)
    → cell_at s.heap obj ≡ some c
    → c.obj ≡ sequence is_tuple xs
    → cell_at s.heap idx ≡ some d
    → HasRoom 1 s.heap
    → IsBalanced s.heap (idx ∷ obj ∷ more)
    → IsShared xs d.obj more (pyir_idx (idx_of is_tuple xs) obj idx s)
pyir_idx-IsElement is_tuple xs obj idx s c d more e is_sequence f room bal =
    pyir_idx-IsShared xs d.obj (idx_of is_tuple xs) obj idx s more (
      idx_of-IsShared is_tuple xs obj s c (idx ∷ obj ∷ more) e is_sequence room bal is_tuple idx d
        f)
