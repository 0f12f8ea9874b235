-- ===== src/Runtime/Range.antt =====
-- The loop of `range` in pystd/src/builtin_runtime.cpp: it ends, and what it makes.
use mathlib.Core.List.{append_assoc, append-nil}
use pycompile.Base.{
  ℕ, zero, suc, ◌+◌, ◌≡◌, refl, true, false, List, [], ◌∷◌, ◌++◌, some, length, length-append,
  arith,
}
use pycompile.Base.Int.{ℤ, pos, pos_part, neg_part, ltb_ℤ, ◌+ℤ◌}
use pycompile.Runtime.Heap.{Addr, Obj, Heap}
use pycompile.Runtime.State.{State, ok, new_obj}
use pycompile.Runtime.Builtins.{rounds, range_loop}
use pycompile.Runtime.Division.{sub_ℕ-parts}

-- The objects of `n` consecutive ints, and their addresses.
abbrev pub ints_from : ℤ → ℕ → Heap
ints_from i zero = []
ints_from i (suc n) = some (record { refs = 1; obj = Obj.int i }) ∷ ints_from (i +ℤ pos 1) n

abbrev pub addresses : Addr → ℕ → List Addr
addresses a zero = []
addresses a (suc n) = a ∷ addresses (suc a) n

more_rounds : (i end : ℤ) (n : ℕ) → rounds i end ≡ suc n → rounds (i +ℤ pos 1) end ≡ n
unfolding ◌+ℤ◌
more_rounds i end n e = let parts = sub_ℕ-parts (pos_part i + 1) (neg_part i + 0) in omega arith

after_rounds :
    (n : ℕ) (i end : ℤ) (s : State)
    → rounds i end ≡ n
    → range_loop (suc n) i end s
      ≡ ok (addresses (length s.heap) n) (record s { heap = s.heap ++ ints_from i n })
unfolding range_loop new_obj
after_rounds zero i end s e =
    let stop : ltb_ℤ i end ≡ false = ground arith in rw (stop, append-nil s.heap) refl
after_rounds (suc n) i end s e =
    let go_on : ltb_ℤ i end ≡ true = ground arith in
    let one : Heap = some (record { refs = 1; obj = Obj.int i }) ∷ [] in
    let rest =
      after_rounds n (i +ℤ pos 1) end (record s { heap = s.heap ++ one }) (more_rounds i end n e) in
    let longer : length (s.heap ++ one) ≡ suc (length s.heap) =
      omega (arith, length-append s.heap one) in
    rw (go_on, rest, longer, append_assoc s.heap one (ints_from (i +ℤ pos 1) n)) refl

-- The loop of `range` ends, whatever the start and the end: as many rounds as the end is after the
-- start, none if it is not, and one test more, return the addresses of new objects, one for each int
-- from the start to before the end, in order; nothing else of the state changes.
pub range_loop-Ends :
    (start end : ℤ) (s : State)
    → range_loop (suc (rounds start end)) start end s
      ≡ ok
          (addresses (length s.heap) (rounds start end))
          (record s { heap = s.heap ++ ints_from start (rounds start end) })
range_loop-Ends start end s = after_rounds (rounds start end) start end s refl
