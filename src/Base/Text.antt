-- ===== src/Base/Text.antt =====
-- Python's texts: joining, and `str` of an integer.
use Prim.Native.Nat.{ℕ, zero, suc, ◌/◌, ◌%◌}
use Prim.Native.String.{String, ◌++◌}
use throttlekit_py.Base.Tests.{ltb, ◌==◌, if◌then◌else◌}
use throttlekit_py.Base.Int.{ℤ, pos, negsuc}

abbrev pub text_append : String → String → String
text_append a b = a ++ b

digit : ℕ → String
digit d =
    if d == 0
    then "0"
    else if d == 1
    then "1"
    else if d == 2
    then "2"
    else if d == 3
    then "3"
    else if d == 4
    then "4"
    else if d == 5
    then "5"
    else if d == 6
    then "6"
    else if d == 7
    then "7"
    else if d == 8
    then "8"
    else "9"

-- The fuel `n + 1` is enough: each round divides by ten.
decimal : ℕ → ℕ → String
unfolding digit
decimal zero n = ""
decimal (suc fuel) n =
    let front = decimal fuel (n / 10) in
    if ltb n 10 then digit n else text_append front (digit (n % 10))

-- `str(i)`
unfoldable pub str_int : ℤ → String
unfolding decimal
str_int (pos n) = decimal (suc n) n
str_int (negsuc n) = text_append "-" (decimal (suc (suc n)) (suc n))
