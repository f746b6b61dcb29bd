-- ===== src/Prelude/Decimal.antt =====
-- Numbers as decimal digits, the way printf writes them.
use Prim.Native.Nat.{ℕ, zero, suc, ◌+◌, ◌-◌, ◌/◌, ◌%◌, ◌^◌}
use mathlib.Core.List.{List, [], ◌∷◌, ◌++◌}
use reproduce.Prelude.Tests.{ltb, if◌then◌else◌}

-- The decimal digits of a number, as the fuel allows, the last one first computed.
unfoldable pub decimal_from : (fuel n : ℕ) → List ℕ
decimal_from zero n = []
decimal_from (suc fuel) n =
    let front = decimal_from fuel (n / 10) in
    if ltb n 10 then (b'0' + n) ∷ [] else front ++ (b'0' + n % 10) ∷ []

-- How a number is printed by "%u".
abbrev pub decimal : ℕ → List ℕ
decimal n = decimal_from (suc n) n

-- "%d" for a 32-bit pattern
abbrev pub signed_decimal : ℕ → List ℕ
signed_decimal n = if ltb n (2 ^ 31) then decimal n else b'-' ∷ decimal (2 ^ 32 - n)
