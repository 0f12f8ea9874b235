-- ===== src/Runtime/Division.antt =====
-- `/` and `%` of int64_t in pystd/src/logical_runtime.cpp, against the law of division.
use native.Mathlib.Omega.{div_any, mod_cases}
use pycompile.Base.{
  ℕ, zero, suc, ◌+◌, ◌*◌, ◌/◌, ◌%◌, ◌≤◌, ◌<◌, ◌≡◌, true, false, Option, none, some, refl, arith,
  ◌⊎◌, inl, inr, Bool-cases,
}
use pycompile.Base.Int.{
  ℤ, pos, negsuc, neg, pos_part, neg_part, sub_ℕ, ◌+ℤ◌, ◌*ℤ◌, quot_ℤ, rem_ℤ, is_zero_ℤ, fits,
}
use pycompile.Runtime.Operators.{int_quotient, int_remainder}

pub sub_ℕ-parts : (a b : ℕ) → pos_part (sub_ℕ a b) + b ≡ a + neg_part (sub_ℕ a b)
sub_ℕ-parts a b = ground arith

sub_ℕ-unique : (a b : ℕ) (z : ℤ) → pos_part z + b ≡ a + neg_part z → sub_ℕ a b ≡ z
sub_ℕ-unique a b (pos n) e = ground arith
sub_ℕ-unique a b (negsuc n) e = ground arith

-- The parts of a product and of a sum.
parts_of-neg : (n : ℕ) → (pos_part (neg n) ≡ 0) × (neg_part (neg n) ≡ n)
parts_of-neg zero = (refl, refl)
parts_of-neg (suc n) = (refl, refl)

product_and_rest :
    (i q j r : ℤ)
    → pos_part i + (pos_part q * neg_part j + neg_part q * pos_part j) + neg_part r
      ≡ pos_part q * pos_part j + neg_part q * neg_part j + pos_part r + neg_part i
    → (q *ℤ j) +ℤ r ≡ i
unfolding ◌*ℤ◌ ◌+ℤ◌
product_and_rest i q j r e =
    let parts =
      sub_ℕ-parts (pos_part q * pos_part j + neg_part q * neg_part j)
        (pos_part q * neg_part j + neg_part q * pos_part j) in
    sub_ℕ-unique _ _ i (omega arith)

quot_rem : (i j : ℤ) → (quot_ℤ i j *ℤ j) +ℤ rem_ℤ i j ≡ i
unfolding quot_ℤ rem_ℤ
quot_rem (pos a) (pos b) = product_and_rest _ _ _ _ (omega (arith, div_any a b))
quot_rem (pos a) (negsuc b) = product_and_rest _ _ _ _ (
    rw ((parts_of-neg (a / suc b)).0, (parts_of-neg (a / suc b)).1)
      (omega (arith, div_any a (suc b))))
quot_rem (negsuc a) (pos b) = product_and_rest _ _ _ _ (
    rw
      (
        (parts_of-neg (suc a / b)).0,
        (parts_of-neg (suc a / b)).1,
        (parts_of-neg (suc a % b)).0,
        (parts_of-neg (suc a % b)).1,
      )
      (omega (arith, div_any (suc a) b)))
quot_rem (negsuc a) (negsuc b) = product_and_rest _ _ _ _ (
    rw ((parts_of-neg (suc a % suc b)).0, (parts_of-neg (suc a % suc b)).1)
      (omega (arith, div_any (suc a) (suc b))))

-- The remainder is smaller than the divisor and has the sign of the dividend.
abbrev pub Truncates : ℤ → ℤ → ℤ → Type 0
Truncates i j r =
    (pos_part r + neg_part r < pos_part j + neg_part j)
    × (neg_part r ≤ neg_part i)
    × (pos_part r ≤ pos_part i)

rem_bounds : (a b : ℕ) → 1 ≤ b → (a % b < b) × (a % b ≤ a)
rem_bounds a b ge =
    mod_cases a b _ (λ e _ _. absurd (omega arith)) (λ lt _. (lt, omega (arith, div_any a b)))

rem-Truncates : (i j : ℤ) → is_zero_ℤ j ≡ false → Truncates i j (rem_ℤ i j)
unfolding rem_ℤ
rem-Truncates (pos a) (pos b) h =
    let (lt, le) = rem_bounds a b (ground arith) in (omega arith, omega arith, le)
rem-Truncates (pos a) (negsuc b) h =
    let (lt, le) = rem_bounds a (suc b) (omega arith) in (omega arith, omega arith, le)
rem-Truncates (negsuc a) (pos b) h =
    let (lt, le) = rem_bounds (suc a) b (ground arith) in
    rw ((parts_of-neg (suc a % b)).0, (parts_of-neg (suc a % b)).1) (omega arith, le, omega arith)
rem-Truncates (negsuc a) (negsuc b) h =
    let (lt, le) = rem_bounds (suc a) (suc b) (omega arith) in
    rw ((parts_of-neg (suc a % suc b)).0, (parts_of-neg (suc a % suc b)).1)
      (omega arith, le, omega arith)

-- What a quotient and a remainder should be: both, with the law of division, or neither, when the
-- divisor is zero or the quotient does not fit.
abbrev pub IsDivision : ℤ → ℤ → Option ℤ → Option ℤ → Type 0
IsDivision i j (some q) (some r) =
    ((q *ℤ j) +ℤ r ≡ i) × Truncates i j r × (fits q ≡ true) × (is_zero_ℤ j ≡ false)
IsDivision i j none none = (is_zero_ℤ j ≡ true) ⊎ (fits (quot_ℤ i j) ≡ false)
IsDivision i j _ _ = ⊥

-- The quotient of `//` and the remainder of `%` on ints exist together, exactly when the divisor is
-- not zero and the quotient is an `int64_t`; then the quotient times the divisor plus the remainder
-- is the dividend, and the remainder is smaller than the divisor and has the sign of the dividend:
-- the division rounds towards zero.
pub int_quotient-IsDivision : (i j : ℤ) → IsDivision i j (int_quotient i j) (int_remainder i j)
unfolding int_quotient int_remainder
int_quotient-IsDivision i j = elim (Bool-cases (is_zero_ℤ j)) [
  | inl zero_div ↦ rw zero_div (inl zero_div)
  | inr ne ↦ elim (Bool-cases (fits (quot_ℤ i j))) [
    | inl fine ↦ rw (ne, fine) (quot_rem i j, rem-Truncates i j ne, fine, ne)
    | inr over ↦ rw (ne, over) (inr over)
  ]
]
