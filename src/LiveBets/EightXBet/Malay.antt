-- ===== src/LiveBets/EightXBet/Malay.antt =====
-- The odds that 8xbet shows, as Malay odds
-- (`indonesianToMalay` of collector/shared/src/bookmakers/eightxbet-live-actions.ts).
use surebet.Base.{
  ℕ, ◌+◌, ◌-◌, ◌*◌, ◌/◌, ◌≤◌, ◌<◌, ◌≡◌, true, ◌⊎◌, some, arith, inl, inr, Bool-cases, leb,
}
use surebet.Base.Int.{pos, negsuc}
use surebet.Number.{Number, fin, unit, number_le, whole, round_to}
use surebet.LiveBets.EightXBet.{indonesian_to_malay}

inverse_bound : (n : ℕ) → 1_000_000 < n → (200_000_000 + n - 1) / (2 * n) ≤ 100
inverse_bound n h = grind arith

small_bound : (n : ℕ) → n ≤ 1_000_000 → (n + 5_000) / 10_000 * 10_000 ≤ 1_000_000
small_bound n h = omega arith

-- Odds that convert at all convert to between -1 and 1: originals of at most 1 to odds that are
-- not negative, and originals above 1 to odds that are not positive.
pub indonesian_to_malay_bounds :
    (n : ℕ) (m : Number)
    → indonesian_to_malay (fin (pos n)) ≡ some m
    → (number_le (fin (negsuc 999_999)) m ≡ true)
      × (number_le m (whole 1) ≡ true)
      × ((n ≤ unit) × (number_le (whole 0) m ≡ true) ⊎ (unit < n) × (number_le m (whole 0) ≡ true))
unfolding indonesian_to_malay round_to
indonesian_to_malay_bounds n m h = elim (Bool-cases (leb n 1_000_000)) [
  | inl small ↦ (
    ground (arith, small_bound n (ground arith)),
    ground (arith, small_bound n (ground arith)),
    inl (ground arith, ground arith),
  )
  | inr large ↦ (
    ground (arith, inverse_bound n (ground arith)),
    ground (arith, inverse_bound n (ground arith)),
    inr (ground arith, ground arith),
  )
]
