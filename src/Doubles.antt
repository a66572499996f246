-- ===== src/Doubles.antt =====
-- Arithmetic that rounds to a double, where the program's results turn on it: the tolerance on odds
-- of collector/shared/src/backend/backend-collector-stream-sink.ts and of the two bookmakers' live
-- actions, and sums and products of hundredths in collector/shared/src/actions.ts. A double is so
-- many units of 2 ^ -80. Of the numbers that are used here, millionths, the least that is not 0 is
-- a multiple of 2 ^ -72 as a double, and so are all their sums; no exponent is too large for a
-- double.
use surebet.Base.{
  ℕ, zero, suc, ◌+◌, ◌-◌, ◌*◌, ◌/◌, ◌%◌, ◌^◌, Bool, true, false, ltb, leb, eqb, if◌then◌else◌,
}
use surebet.Base.Int.{ℤ, pos, negsuc, magnitude, sub_ℕ, ◌+ℤ◌, ◌-ℤ◌}
use surebet.Number.{Number, fin, nan, infinity, neg_infinity, unit}

-- The bits of a number, on fuel: a half of a number that is not 0 is less than it.
unfoldable pub bits : ℕ → ℕ → ℕ
bits zero n = 0
bits (suc fuel) n = elim (eqb n 0) [ true ↦ 0 | false ↦ suc (bits fuel (n / 2)) ]

-- The whole number nearest to a quotient, the even one of two
unfoldable pub round_even : ℕ → ℕ → ℕ
round_even n d =
    let q = n / d in
    let r = n % d in if ltb (2 * r) d then q else if ltb d (2 * r) then suc q else q + q % 2

-- The nearest number with 53 bits to a quotient
unfoldable pub nearest : ℕ → ℕ → ℕ
unfolding bits round_even
nearest n d = let step = 2 ^ (bits (n / d) (n / d) - 53) in round_even n (d * step) * step

abbrev pub one : ℕ
one = 2 ^ 80

-- The double of so many millionths
unfoldable pub double : ℕ → ℕ
unfolding nearest
double n = nearest (n * one) unit

abbrev signed : (ℕ → ℕ) → ℤ → ℤ
signed f (pos n) = pos (f n)
signed f (negsuc n) = sub_ℕ 0 (f (suc n))

-- `a + b` for two doubles, of millionths
unfoldable pub double_plus : ℤ → ℤ → ℤ
unfolding double nearest
double_plus a b = signed (λ n. nearest n 1) (signed double a +ℤ signed double b)

-- `|a - b|` for two doubles, of millionths
unfoldable pub double_gap : ℤ → ℤ → ℕ
unfolding double nearest
double_gap a b = nearest (magnitude (signed double a -ℤ signed double b)) 1

-- `Math.round(a * 100)` for a double, a half rounded up
unfoldable pub round_hundredths : ℤ → ℤ
unfolding nearest
round_hundredths (pos n) = pos ((nearest (n * 100) 1 + one / 2) / one)
round_hundredths (negsuc n) = sub_ℕ 0 ((nearest (suc n * 100) 1 + (one / 2 - 1)) / one)

-- `Math.abs(a - b) > 0.001`, and `<= 0.001`
unfoldable pub odds_differ : Number → Number → Bool
unfolding double_gap double
odds_differ (fin a) (fin b) = ltb (double 1_000) (double_gap a b)
odds_differ nan b = false
odds_differ a nan = false
odds_differ infinity infinity = false
odds_differ neg_infinity neg_infinity = false
odds_differ _ _ = true

unfoldable pub odds_within : Number → Number → Bool
unfolding double_gap double
odds_within (fin a) (fin b) = leb (double_gap a b) (double 1_000)
odds_within _ _ = false
