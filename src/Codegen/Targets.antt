-- ===== src/Codegen/Targets.antt =====
-- The pre-pass of `buildMLIRModule`, and the blocks that jumps look up.
use pycompile.Base.{
  Bool, String, Option, none, if◌then◌else◌, ==_iff, ℕ, ◌≡◌, refl, true, false, List, [], ◌∷◌, ◌++◌,
  some, length, get_elem?, set, arith, get_elem?-set-some, ◌==◌, Bool-cases, Option-cases, inl, inr,
}
use pycompile.Base.Int.{as_size, ℤ}
use pycompile.Base.Assoc.{lookup, insert, lookup-insert}
use pycompile.Bytecode.{
  Opcode, ArgvalType, Argval, ByteCodeInstruction, instr, Instructions, nil, cons,
}
use pycompile.Pyir.{Func}
use pycompile.Codegen.State.{State, Result, ok, err, Gen, ◌>>=◌, add_block, modify, and_then}
use pycompile.Codegen.Control.{block_at}
use pycompile.Codegen.Module.{ensure_block, is_jump, is_end_for, jump_block, jump_blocks}

-- The generator succeeds, with a final state that satisfies `Q`.
abbrev pub Reaches : {A : Type 0} → (State → Type 0) → Result A → Type 0
Reaches Q (ok _ s) = Q s
Reaches Q (err _) = ⊥

-- The offset has a block.
abbrev pub HasBlock : ℕ → State → Type 0
HasBlock t s = (b : ℕ) × (lookup t s.offset_to_block ≡ some b)

-- The function being built stands among the module's functions.
abbrev pub HasFunction : State → Type 0
HasFunction s = (f : Func) × (get_elem? s.funcs s.fn ≡ some f)

-- The function stays, every offset that has a block has one, and all but those of `renewed` keep
-- theirs.
abbrev pub Extends : (ℕ → Bool) → State → State → Type 0
Extends renewed s s' =
    HasFunction s'
    × ((t : ℕ) → HasBlock t s → HasBlock t s')
    × ((t b : ℕ)
        → renewed t ≡ false
        → lookup t s.offset_to_block ≡ some b
        → lookup t s'.offset_to_block ≡ some b)

-- The offset of an END_FOR, which always gets a new block.
unfoldable pub ends_at : ByteCodeInstruction → ℕ → Bool
unfolding is_end_for
ends_at (instr offset opcode repr line starts type argval) t =
    if is_end_for opcode then offset == t else false

abbrev pub any_ends_at : Instructions → ℕ → Bool
any_ends_at nil t = false
any_ends_at (cons i rest) t = if ends_at i t then true else any_ends_at rest t

both_false : (a b : Bool) → (if a then true else b) ≡ false → (a ≡ false) × (b ≡ false)
both_false true b e = absurd (cc e)
both_false false b e = (refl, e)

Reaches-map :
    {A : Type 0} (P Q : State → Type 0) (r : Result A)
    → ((s : State) → P s → Q s)
    → Reaches P r
    → Reaches Q r
Reaches-map P Q (ok a s) f h = f s h
Reaches-map P Q (err e) f h = h

-- Adding a block for an offset.
abbrev map_new_block : ℕ → Gen (Unit {0})
map_new_block offset = do
  b ← add_block
  modify (λ (t : State). record t { offset_to_block = insert offset b t.offset_to_block })

add_block_lem :
    (s : State) {f : Func}
    → get_elem? s.funcs s.fn ≡ some f
    → add_block s
      ≡ ok (length f.blocks) (record s {
        funcs =
            set s.funcs s.fn
              (record f { blocks = f.blocks ++ (record { args = []; ops = [] } ∷ []) });
      })
unfolding add_block
add_block_lem s e = rw (e, add_block)

HasBlock-insert :
    (offset b t : ℕ) (m : List (ℕ × ℕ))
    → (c : ℕ) × (lookup t m ≡ some c)
    → (c : ℕ) × (lookup t (insert offset b m) ≡ some c)
HasBlock-insert offset b t m (c, e) = elim (Bool-cases (offset == t)) [
  | inl same ↦ (b, ground (arith, lookup-insert offset t b m))
  | inr other ↦ (c, ground (arith, lookup-insert offset t b m))
]

map_new_block-Reaches :
    (offset : ℕ) (s : State)
    → HasFunction s
    → Reaches (λ s'. Extends (λ t. offset == t) s s' × HasBlock offset s') (map_new_block offset s)
map_new_block-Reaches offset s (f, e) =
    let f' : Func = record f { blocks = f.blocks ++ (record { args = []; ops = [] } ∷ []) } in
    rw (add_block_lem s e) (
      (
        (f', get_elem?-set-some s.funcs s.fn f f' e),
        (λ t h. HasBlock-insert offset (length f.blocks) t s.offset_to_block h),
        (λ t b other l. rw (lookup-insert offset t (length f.blocks) s.offset_to_block, other) l),
      ),
      (
        length f.blocks,
        ground (arith, lookup-insert offset offset (length f.blocks) s.offset_to_block),
      ),
    )

-- An offset without a block gets one.
new-Extends :
    (offset : ℕ) (s s' : State)
    → lookup offset s.offset_to_block ≡ none
    → Extends (λ t. offset == t) s s'
    → Extends (λ _. false) s s'
new-Extends offset s s' free x = (
  x.0,
  x.1,
  λ t b _ l. elim (Bool-cases (offset == t)) [
    | inr other ↦ x.2 t b other l
    | inl same ↦ (let eq = (==_iff offset t).0 same in absurd (cc (free, l, eq)))
  ],
)

ensure_block-Reaches :
    (offset : ℕ) (s : State)
    → HasFunction s
    → Reaches (λ s'. Extends (λ _. false) s s' × HasBlock offset s') (ensure_block offset s)
unfolding ensure_block
ensure_block-Reaches offset s h = elim (Option-cases (lookup offset s.offset_to_block)) [
  | inl e ↦
      rw (e, ◌>>=◌, and_then)
        (Reaches-map (λ s'. Extends (λ t. offset == t) s s' × HasBlock offset s')
          (λ s'. Extends (λ _. false) s s' × HasBlock offset s') (map_new_block offset s)
          (λ s' (x, b). (new-Extends offset s s' e x, b)) (map_new_block-Reaches offset s h))
  | inr (b, e) ↦ rw (e, ◌>>=◌, and_then) ((h, (λ t k. k), (λ t c _ l. l)), (b, e))
]

-- The instructions whose translation looks up the block of their argument.
abbrev pub IsJump : Opcode → Type 0
IsJump Opcode.jump_forward = Unit
IsJump Opcode.jump_backward = Unit
IsJump Opcode.pop_jump_if_true = Unit
IsJump Opcode.pop_jump_if_false = Unit
IsJump _ = ⊥

abbrev pub IsEndFor : Opcode → Type 0
IsEndFor Opcode.end_for = Unit
IsEndFor _ = ⊥

is_jump-IsJump : (o : Opcode) → IsJump o → is_jump o ≡ true
unfolding is_jump
is_jump-IsJump Opcode.jump_forward h = refl
is_jump-IsJump Opcode.jump_backward h = refl
is_jump-IsJump Opcode.pop_jump_if_true h = refl
is_jump-IsJump Opcode.pop_jump_if_false h = refl
is_jump-IsJump _ h = absurd h

is_end_for-IsEndFor : (o : Opcode) → IsEndFor o → is_end_for o ≡ true
unfolding is_end_for
is_end_for-IsEndFor Opcode.end_for h = refl
is_end_for-IsEndFor _ h = absurd h

-- What the pre-pass owes to an instruction: a jump's target has a block, which `block_at` finds, and
-- an END_FOR has one at its own offset.
abbrev pub IsTargeted : Opcode → Argval → State → Type 0
IsTargeted opcode (Argval.int t) s = IsJump opcode → (b : ℕ) × (block_at t s ≡ ok b s)
IsTargeted opcode _ s = Unit

abbrev pub IsCovered : ByteCodeInstruction → State → Type 0
IsCovered (instr offset opcode repr line starts type argval) s =
    IsTargeted opcode argval s × (IsEndFor opcode → HasBlock offset s)

abbrev pub AreCovered : Instructions → State → Type 0
AreCovered nil s = Unit
AreCovered (cons i rest) s = IsCovered i s × AreCovered rest s

block_at-HasBlock : (t : ℤ) (s : State) → HasBlock (as_size t) s → (b : ℕ) × (block_at t s ≡ ok b s)
unfolding block_at
block_at-HasBlock t s (b, e) = (b, rw (e, block_at))

HasBlock-block_at : (t : ℤ) (s : State) → (b : ℕ) × (block_at t s ≡ ok b s) → HasBlock (as_size t) s
unfolding block_at
HasBlock-block_at t s (b, e) = elim (Option-cases (lookup (as_size t) s.offset_to_block)) [
  | inl p ↦ absurd (cc (rw (p, block_at) at e))
  | inr p ↦ p
]

end_for_no_jump : (o : Opcode) → is_end_for o ≡ true → is_jump o ≡ false
unfolding is_end_for is_jump
end_for_no_jump o = ground arith

IsTargeted-extends :
    (opcode : Opcode) (argval : Argval) (s s' : State)
    → ((t : ℕ) → HasBlock t s → HasBlock t s')
    → IsTargeted opcode argval s
    → IsTargeted opcode argval s'
IsTargeted-extends opcode (Argval.int t) s s' f h =
    λ j. block_at-HasBlock t s' (f (as_size t) (HasBlock-block_at t s (h j)))
IsTargeted-extends opcode _ s s' f h = tt

IsCovered-extends :
    (i : ByteCodeInstruction) (s s' : State)
    → ((t : ℕ) → HasBlock t s → HasBlock t s')
    → IsCovered i s
    → IsCovered i s'
IsCovered-extends (instr offset opcode repr line starts type argval) s s' f (h, k) =
    (IsTargeted-extends opcode argval s s' f h, λ e. f offset (k e))

IsTargeted-end_for :
    (opcode : Opcode) (argval : Argval) (s : State)
    → is_end_for opcode ≡ true
    → IsTargeted opcode argval s
IsTargeted-end_for opcode (Argval.int t) s e =
    λ j. absurd (cc (end_for_no_jump opcode e, is_jump-IsJump opcode j))
IsTargeted-end_for opcode _ s e = tt

-- What the pre-pass does for one instruction.
abbrev Treats : ByteCodeInstruction → State → State → Type 0
Treats i s s' = Extends (ends_at i) s s' × IsCovered i s'

module _ (offset : ℕ) (opcode : Opcode) (repr : String) (line : Option ℕ) (starts : Bool)
    (type : ArgvalType) where
  jump-Reaches :
      (argval : Argval) (s : State)
      → is_end_for opcode ≡ false
      → HasFunction s
      → Reaches
          (Treats (instr offset opcode repr line starts type argval) s)
          (jump_block offset opcode argval s)
  unfolding jump_block ends_at
  jump-Reaches (Argval.int t) s e h = elim (Bool-cases (is_jump opcode)) [
    | inl j ↦
        rw (e, j)
          (Reaches-map (λ s'. Extends (λ _. false) s s' × HasBlock (as_size t) s')
            (Treats (instr offset opcode repr line starts type (Argval.int t)) s)
            (ensure_block (as_size t) s)
            (λ s' (x, b). (
              (x.0, x.1, λ u c _ l. x.2 u c refl l),
              ((λ _. block_at-HasBlock t s' b), (λ f. absurd (cc (is_end_for-IsEndFor opcode f)))),
            ))
            (ensure_block-Reaches (as_size t) s h))
    | inr j ↦
        rw (e, j)
          (
            (h, (λ u k. k), (λ u b _ l. l)),
            (
              (λ f. absurd (cc (is_jump-IsJump opcode f))),
              (λ f. absurd (cc (is_end_for-IsEndFor opcode f))),
            ),
          )
  ]
  jump-Reaches _ s e h =
      rw e
        ((h, (λ u k. k), (λ u b _ l. l)), (tt, (λ f. absurd (cc (is_end_for-IsEndFor opcode f)))))

  jump_block-Reaches :
      (argval : Argval) (s : State)
      → HasFunction s
      → Reaches
          (Treats (instr offset opcode repr line starts type argval) s)
          (jump_block offset opcode argval s)
  unfolding jump_block ends_at
  jump_block-Reaches argval s h = elim (Bool-cases (is_end_for opcode)) [
    | inl e ↦ rw e (
        Reaches-map (λ s'. Extends (λ t. offset == t) s s' × HasBlock offset s')
          (Treats (instr offset opcode repr line starts type argval) s) (map_new_block offset s)
          (λ s' (x, b). (
            (x.0, x.1, λ t c other l. x.2 t c (rw e at other) l),
            (IsTargeted-end_for opcode argval s' e, (λ _. b)),
          ))
          (map_new_block-Reaches offset s h))
    | inr e ↦ jump-Reaches argval s e h
  ]

after-Reaches :
    (i : ByteCodeInstruction) (rest : Instructions) (s : State) (r : Result (Unit {0}))
    (k : Gen (Unit {0}))
    → Reaches (Treats i s) r
    → ((s' : State)
        → HasFunction s'
        → Reaches (λ s''. Extends (any_ends_at rest) s' s'' × AreCovered rest s'') (k s'))
    → Reaches
        (λ s''. Extends (any_ends_at (cons i rest)) s s'' × AreCovered (cons i rest) s'')
        (and_then r (λ _. k))
after-Reaches i rest s (ok u s') k h g =
    Reaches-map (λ s''. Extends (any_ends_at rest) s' s'' × AreCovered rest s'')
      (λ s''. Extends (any_ends_at (cons i rest)) s s'' × AreCovered (cons i rest) s'') (k s')
      (λ s'' (x, a). (
        (
          x.0,
          (λ t b. x.1 t (h.0.1 t b)),
          (λ t b other l.
              let (here, there) = both_false (ends_at i t) (any_ends_at rest t) other in
              x.2 t b there (h.0.2 t b here l)),
        ),
        (IsCovered-extends i s' s'' x.1 h.1, a),
      ))
      (g s' h.0.0)
after-Reaches i rest s (err e) k h g = absurd h

pub jump_blocks-covers :
    (is : Instructions) (s : State)
    → HasFunction s
    → Reaches (λ s'. Extends (any_ends_at is) s s' × AreCovered is s') (jump_blocks is s)
unfolding jump_blocks
jump_blocks-covers nil s h = ((h, (λ t k. k), (λ t b _ l. l)), tt)
jump_blocks-covers (cons (instr offset opcode repr line starts type argval) rest) s h =
    after-Reaches (instr offset opcode repr line starts type argval) rest s
      (jump_block offset opcode argval s) (jump_blocks rest)
      (jump_block-Reaches offset opcode repr line starts type argval s h)
      (λ s' h'. jump_blocks-covers rest s' h')
