-- ===== src/Prelude/Decimal.antt =====
-- Go's `strconv.Itoa` on numbers that are not negative.
use luima.Prelude.Tests.{ltb, if◌then◌else◌}
use luima.Prelude.Texts.{Text, codes}
use Prim.Native.Nat.{ℕ, zero, suc, ◌+◌, ◌/◌, ◌%◌}
use mathlib.Core.List.{[], ◌∷◌}
use mathlib.Core.Path.{◌≡◌, refl}

-- The digits in front of those written so far, on at most `fuel` rounds.
itoa_loop : ℕ → ℕ → Text → Text
itoa_loop zero n done = done
itoa_loop (suc fuel) n done =
    let more = itoa_loop fuel (n / 10) ((b'0' + n % 10) ∷ done) in
    if ltb n 10 then (b'0' + n) ∷ done else more

unfoldable pub itoa : ℕ → Text
unfolding itoa_loop
itoa n = itoa_loop (suc n) n []

itoa_numbers : itoa 600 ≡ codes "600"
unfolding itoa codes
itoa_numbers = refl
