-- ===== src/Base/Text.antt =====
-- Decimal text of a number, for `std::to_string`.
use Prim.Native.String.{String, ◌++◌}
use Prim.Native.Nat.{ℕ, zero, suc, ◌/◌, ◌%◌}
use pycompile.Base.Tests.{ltb, ◌==◌, if◌then◌else◌}

digit : ℕ → String
digit d =
    if d == 0
    then "0"
    else if d == 1
    then "1"
    else if d == 2
    then "2"
    else if d == 3
    then "3"
    else if d == 4
    then "4"
    else if d == 5
    then "5"
    else if d == 6
    then "6"
    else if d == 7
    then "7"
    else if d == 8
    then "8"
    else "9"

-- The digits of `n` in front of `rest`; the fuel is the number itself, which bounds their number.
digits_from : ℕ → ℕ → String → String
unfolding digit
digits_from zero n rest = digit (n % 10) ++ rest
digits_from (suc f) n rest =
    let more = digits_from f (n / 10) (digit (n % 10) ++ rest) in
    if ltb n 10 then digit n ++ rest else more

unfoldable pub to_string : ℕ → String
unfolding digits_from
to_string n = digits_from n n ""
