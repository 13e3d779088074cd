-- ===== src/Prelude/Decimal.antt =====
-- str(n) for a number n >= 0.
use Prim.Native.Nat.{ℕ, zero, suc, ◌+◌, ◌/◌, ◌%◌}
use mathlib.Core.List.{[], ◌∷◌, ◌++◌}
use cirradio.Prelude.Tests.{ltb, if◌then◌else◌}
use cirradio.Prelude.Texts.{Text}

-- A number has at most as many digits as its own value plus one.
unfoldable pub decimal_from : ℕ → ℕ → Text
decimal_from zero n = []
decimal_from (suc fuel) n =
    let high = decimal_from fuel (n / 10) in
    if ltb n 10 then (48 + n) ∷ [] else high ++ (48 + n % 10) ∷ []

unfoldable pub decimal : ℕ → Text
unfolding decimal_from
decimal n = decimal_from (suc n) n
