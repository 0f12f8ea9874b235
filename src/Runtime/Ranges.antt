-- ===== src/Runtime/Ranges.antt =====
-- `pyir_builtinRange` of pystd/src/builtin_runtime.cpp: the references to its arguments and to the
-- items that it makes.
use mathlib.Core.List.{append_assoc, append-nil}
use pycompile.Base.{
  All, ℕ, zero, suc, ◌≤◌, ◌≡◌, refl, ◌∙◌, List, [], ◌∷◌, ◌++◌, Option, none, some, length,
  length-append, String, arith,
}
use pycompile.Base.Int.{ℤ, pos, ◌+ℤ◌}
use pycompile.Runtime.Heap.{Addr, Obj, Cell, Heap, cell_at, children}
use pycompile.Runtime.Balance.{count, IsBalanced, count-append}
use pycompile.Runtime.State.{State, Exception, Outcome, ok, thrown, Run, throw, ◌>>=◌, new_obj}
use pycompile.Runtime.Sequences.{obj_at}
use pycompile.Runtime.Variables.{IsBalanced-count}
use pycompile.Runtime.Creation.{cell_at-middle, new_obj-IsBalanced}
use pycompile.Runtime.Builtins.{
  wrong_arguments, rounds, range_between, range_from, range_to, pyir_builtin_range,
}
use pycompile.Runtime.Range.{ints_from, addresses, range_loop-Ends}
use pycompile.Runtime.Survivors.{Outlives, after_args_kept, survivor}
use pycompile.Runtime.Concat.{All-self}
use pycompile.Runtime.Addition.{still_there}

-- The new ints of the loop are counted references of the caller.
ints-IsBalanced :
    (n : ℕ) (i : ℤ) (s : State) (roots : List Addr)
    → 3 ≤ length s.heap
    → IsBalanced s.heap roots
    → IsBalanced (s.heap ++ ints_from i n) (addresses (length s.heap) n ++ roots)
unfolding new_obj children
ints-IsBalanced zero i s roots ge bal = rw (append-nil s.heap) bal
ints-IsBalanced (suc n) i s roots ge bal =
    let one : Heap = some (record { refs = 1; obj = Obj.int i }) ∷ [] in
    let a = length s.heap in
    let longer : length (s.heap ++ one) ≡ suc a = omega (arith, length-append s.heap one) in
    let rest =
      ints-IsBalanced n (i +ℤ pos 1) (record s { heap = s.heap ++ one }) (a ∷ roots) (omega arith)
        (new_obj-IsBalanced (Obj.int i) s roots ge bal).1 in
    let joined = rw (longer, append_assoc s.heap one (ints_from (i +ℤ pos 1) n)) at rest in
    IsBalanced-count (s.heap ++ ints_from i (suc n)) (addresses (suc a) n ++ (a ∷ roots))
      (a ∷ (addresses (suc a) n ++ roots))
      (λ b. omega (
        arith,
        count-append b (addresses (suc a) n) (a ∷ roots),
        count-append b (addresses (suc a) n) roots,
      ))
      joined

-- Objects that are `n` consecutive ints.
abbrev pub AreInts : ℤ → ℕ → List Addr → Heap → Type 0
AreInts i zero [] h = Unit
AreInts i (suc n) (x ∷ xs) h =
    ((c : Cell) × (cell_at h x ≡ some c) × (c.obj ≡ Obj.int i)) × AreInts (i +ℤ pos 1) n xs h
AreInts i _ _ h = ⊥

ints-AreInts :
    (n : ℕ) (i : ℤ) (h : Heap) → AreInts i n (addresses (length h) n) (h ++ ints_from i n)
ints-AreInts zero i h = tt
ints-AreInts (suc n) i h =
    let c : Cell = record { refs = 1; obj = Obj.int i } in
    let longer : length (h ++ (some c ∷ [])) ≡ suc (length h) =
      omega (arith, length-append h (some c ∷ [])) in
    (
      (c, cell_at-middle h (some c) (ints_from (i +ℤ pos 1) n), refl),
      rw (longer, append_assoc h (some c ∷ []) (ints_from (i +ℤ pos 1) n)) at
          (ints-AreInts n (i +ℤ pos 1) (h ++ (some c ∷ []))),
    )

-- Another heap with the same objects at these addresses.
AreInts-kept :
    (Q : Addr → Type 0) (h h' : Heap)
    → ((x : Addr) (c : Cell)
        → Q x
        → cell_at h x ≡ some c
        → (d : Cell) × (cell_at h' x ≡ some d) × (d.obj ≡ c.obj))
    → (i : ℤ) (n : ℕ) (xs : List Addr) → All Q xs
    → AreInts i n xs h
    → AreInts i n xs h'
AreInts-kept Q h h' f i zero [] q ints = tt
AreInts-kept Q h h' f i (suc n) (x ∷ xs) q ints =
    let (c, e, is_int) = ints.0 in
    let (d, e', same) = f x c q.0 e in
    ((d, e', same ∙ is_int), AreInts-kept Q h h' f (i +ℤ pos 1) n xs q.1 ints.1)
AreInts-kept Q h h' f i zero (x ∷ xs) q ints = absurd ints
AreInts-kept Q h h' f i (suc n) [] q ints = absurd ints

All-addresses : (a : Addr) (n : ℕ) → 3 ≤ a → All (λ x. 3 ≤ x) (addresses a n)
All-addresses a zero ge = tt
All-addresses a (suc n) ge = (ge, All-addresses (suc a) n (omega arith))

All-both : (P Q : Addr → Type 0) (xs : List Addr) → All P xs → All Q xs → All (λ x. P x × Q x) xs
All-both P Q [] p q = tt
All-both P Q (x ∷ xs) p q = ((p.0, q.0), All-both P Q xs p.1 q.1)

-- The tuple of the ints from `start` to before `end`.
abbrev pub IsRange : ℤ → ℤ → Addr → Heap → Type 0
IsRange start end a h =
    (items : List Addr) × ((c : Cell) × (cell_at h a ≡ some c) × (c.obj ≡ Obj.tuple items))
    × AreInts start (rounds start end) items h

-- The range with one counted reference, or a TypeError for arguments that name no range.
abbrev pub Ranges : Option (ℤ × ℤ) → List Addr → Outcome Addr → Type 0
Ranges (some (start, end)) more (ok a s) = IsRange start end a s.heap × IsBalanced s.heap (a ∷ more)
Ranges none more (thrown (Exception.type_error text) s) = IsBalanced s.heap more
Ranges _ more _ = ⊥

-- What is left after the arguments are given up, with the new tuple.
tuple_of_ints :
    (start end : ℤ) (items more : List Addr) (u : State) (h : Heap)
    → AreInts start (rounds start end) items u.heap
    → All (λ x. 3 ≤ x) items
    → Outlives u.heap h
    → 3 ≤ length h
    → IsBalanced h (items ++ more)
    → Ranges (some (start, end)) more (new_obj (Obj.tuple items) (record u { heap = h }))
unfolding new_obj children
tuple_of_ints start end items more u h ints above kept ge bal =
    let new : Cell = record { refs = 1; obj = Obj.tuple items } in
    let left =
      AreInts-kept (λ x. (3 ≤ x) × (1 ≤ count x items)) u.heap h
        (λ x c q e.
          survivor x u.heap h (items ++ more) c q.0 e kept
            (let held = q.1 in omega (arith, count-append x items more)) bal)
        start (rounds start end) items
        (All-both (λ x. 3 ≤ x) (λ x. 1 ≤ count x items) items above (All-self items)) ints in
    (
      (
        items,
        (new, cell_at-middle h (some new) [], refl),
        AreInts-kept (λ x. 3 ≤ x) h (h ++ (some new ∷ []))
            (λ x c q e. (c, still_there x h c (some new) e, refl)) start (rounds start end) items
            above left,
      ),
      (new_obj-IsBalanced (Obj.tuple items) (record u { heap = h }) more ge bal).1,
    )

-- The tuple takes over the references to the items.
range_between-Ranges :
    (args more : List Addr) (start end : ℤ) (s : State)
    → 3 ≤ length s.heap
    → IsBalanced s.heap (args ++ more)
    → Ranges (some (start, end)) more (range_between args start end s)
range_between-Ranges args more start end s ge bal =
    let n = rounds start end in
    let items = addresses (length s.heap) n in
    let made : State = record s { heap = s.heap ++ ints_from start n } in
    let counted = ints-IsBalanced n start s (args ++ more) ge bal in
    rw (range_loop-Ends start end s) (
      after_args_kept (Ranges (some (start, end)) more) args (items ++ more) made
        (new_obj (Obj.tuple items))
        (IsBalanced-count made.heap (items ++ (args ++ more)) (args ++ (items ++ more))
          (λ b. omega (
            arith,
            count-append b items (args ++ more),
            count-append b args more,
            count-append b args (items ++ more),
            count-append b items more,
          ))
          counted)
        λ h kept bal'.
          tuple_of_ints start end items more made h (ints-AreInts n start s.heap)
            (All-addresses (length s.heap) n ge) kept
            (let long = kept.0 in omega (arith, length-append s.heap (ints_from start n))) bal')

wrong-Ranges :
    (message : String) (args more : List Addr) (s : State)
    → IsBalanced s.heap (args ++ more)
    → Ranges none more (wrong_arguments message args s)
wrong-Ranges message args more s bal =
    after_args_kept (Ranges none more) args more s (throw (Exception.type_error message)) bal
      λ h kept bal'. bal'

abbrev pub starting : Obj → ℤ → Option (ℤ × ℤ)
starting (Obj.int start) end = some (start, end)
starting _ end = none

-- The range that two objects name.
abbrev pub int_pair : Obj → Obj → Option (ℤ × ℤ)
int_pair first (Obj.int end) = starting first end
int_pair first _ = none

-- The range that the arguments name: to an int from 0, or from one int to another.
abbrev pub range_of : List Cell → Option (ℤ × ℤ)
range_of (c ∷ []) = int_pair (Obj.int (pos 0)) c.obj
range_of (c ∷ d ∷ []) = int_pair c.obj d.obj
range_of _ = none

-- The cells of live addresses.
abbrev pub AreLive : Heap → List Addr → List Cell → Type 0
AreLive h [] [] = Unit {0}
AreLive h (a ∷ args) (c ∷ cells) = (cell_at h a ≡ some c) × AreLive h args cells
AreLive h _ _ = ⊥

module _ (args more : List Addr) (s : State) (ge : 3 ≤ length s.heap)
    (bal : IsBalanced s.heap (args ++ more)) where
  refused : Ranges none more (wrong_arguments "range() expects integer arguments" args s)
  refused = wrong-Ranges "range() expects integer arguments" args more s bal

  from-Ranges :
      (end : ℤ) (first : Obj)
      → Ranges (int_pair first (Obj.int end)) more (range_from args end first s)
  from-Ranges end (Obj.int start) = range_between-Ranges args more start end s ge bal
  from-Ranges end _ = refused

  to-Ranges :
      (first last : Obj) (k : ℤ → Run Addr)
      → ((end : ℤ) → Ranges (int_pair first (Obj.int end)) more (k end s))
      → Ranges (int_pair first last) more (range_to args last k s)
  to-Ranges first (Obj.int end) k f = f end
  to-Ranges first _ k f = refused

-- `range` with any number of live arguments of any type, when the counts are exact and the caller
-- holds a reference to each: one int, or two, name a range, and a counted tuple of its ints, in
-- order, is returned; for any others a TypeError is raised. The references to the arguments are
-- given up, and the counts are exact, also of the new items.
pub pyir_builtin_range-Ranges :
    (args more : List Addr) (cells : List Cell) (s : State)
    → AreLive s.heap args cells
    → 3 ≤ length s.heap
    → IsBalanced s.heap (args ++ more)
    → Ranges (range_of cells) more (pyir_builtin_range args s)
unfolding pyir_builtin_range obj_at
pyir_builtin_range-Ranges [] more [] s live ge bal =
    wrong-Ranges "range() takes one or two arguments" [] more s bal
pyir_builtin_range-Ranges (x ∷ []) more (c ∷ []) s live ge bal = rw live.0 (
    to-Ranges (x ∷ []) more s ge bal (Obj.int (pos 0)) c.obj
      (λ end. range_between (x ∷ []) (pos 0) end)
      (λ end. range_between-Ranges (x ∷ []) more (pos 0) end s ge bal))
pyir_builtin_range-Ranges (x ∷ y ∷ []) more (c ∷ d ∷ []) s live ge bal = rw live.1.0 (
    to-Ranges (x ∷ y ∷ []) more s ge bal c.obj d.obj
      (λ end. obj_at x >>= λ first. range_from (x ∷ y ∷ []) end first)
      (λ end. rw live.0 (from-Ranges (x ∷ y ∷ []) more s ge bal end c.obj)))
pyir_builtin_range-Ranges (x ∷ y ∷ z ∷ rest) more (c ∷ d ∷ e ∷ cells) s live ge bal =
    wrong-Ranges "range() takes one or two arguments" (x ∷ y ∷ z ∷ rest) more s bal
pyir_builtin_range-Ranges [] more (c ∷ cells) s live ge bal = absurd live
pyir_builtin_range-Ranges (x ∷ args) more [] s live ge bal = absurd live
pyir_builtin_range-Ranges (x ∷ []) more (c ∷ d ∷ cells) s live ge bal = absurd live.1
pyir_builtin_range-Ranges (x ∷ y ∷ args) more (c ∷ []) s live ge bal = absurd live.1
pyir_builtin_range-Ranges (x ∷ y ∷ []) more (c ∷ d ∷ e ∷ cells) s live ge bal = absurd live.1.1
pyir_builtin_range-Ranges (x ∷ y ∷ z ∷ rest) more (c ∷ d ∷ []) s live ge bal = absurd live.1.1
