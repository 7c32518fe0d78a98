-- ===== src/Base/Decimal.antt =====
-- `String(n)` of a natural number: its decimal digits.
use Prim.Native.Nat.{ℕ, zero, suc, ◌/◌, ◌%◌, ◌≤◌}
use Prim.Native.String
use Prim.Native.String.{String}
use mathlib.Core.Path.{◌≡◌, refl}
use native.Mathlib.Omega.{arith}
use mailmon.Base.Tests.{ltb, eqb, if◌then◌else◌}

digit : ℕ → String
digit d =
    if eqb d 0
    then "0"
    else if eqb d 1
    then "1"
    else if eqb d 2
    then "2"
    else if eqb d 3
    then "3"
    else if eqb d 4
    then "4"
    else if eqb d 5
    then "5"
    else if eqb d 6
    then "6"
    else if eqb d 7
    then "7"
    else if eqb d 8
    then "8"
    else "9"

-- One digit for each unit of fuel, and one more.
decimal_on : ℕ → ℕ → String
decimal_on zero n = digit n
decimal_on (suc fuel) n =
    let front = String.◌++◌ (decimal_on fuel (n / 10)) (digit (n % 10)) in
    if ltb n 10 then digit n else front

-- The number itself is fuel enough.
unfoldable pub decimal : ℕ → String
unfolding decimal_on digit
decimal n = decimal_on n n

decimal_on-eq : (f g n : ℕ) → n ≤ f → n ≤ g → decimal_on f n ≡ decimal_on g n
unfolding decimal_on
decimal_on-eq zero zero n p q = refl
decimal_on-eq zero (suc g) n p q = ground arith
decimal_on-eq (suc f) zero n p q = ground arith
decimal_on-eq (suc f) (suc g) n p q = ground (arith, decimal_on-eq f g (n / 10))

-- More fuel than the number changes nothing.
decimal_fuel : (f n : ℕ) → n ≤ f → decimal_on f n ≡ decimal n
unfolding decimal
decimal_fuel f n p = decimal_on-eq f n n p (omega arith)

decimal_503 : decimal 503 ≡ "503"
unfolding decimal
decimal_503 = refl
