-- ===== src/SimulatedBets/Odds.antt =====
-- The odds that the simulated bookmaker changes to by default, from odds of two decimals
-- (`defaultChangedOdds` of collector/shared/src/actions.ts).
use surebet.Base.{
  ℕ, zero, suc, ◌≤◌, ◌<◌, ◌≡◌, refl, ap, String, Bool, true, false, not, ◌&&◌, arith, none,
  if◌then◌else◌,
}
use surebet.Base.Int.{ℤ, pos, negsuc, ◌+ℤ◌, magnitude, eqb_ℤ, eq_of_eqb}
use surebet.Base.Outcome.{Outcome, returned, threw}
use surebet.Clock.{Clock}
use surebet.Number.{Number, fin, infinity, neg_infinity, number_eq}
use surebet.Contracts.Odds.{BookmakerCode}
use surebet.Contracts.Bets.{SimulatedPlaceBetRequest, SimulatedPlaceBetResult, odds_changed}
use surebet.SimulatedBets.{
  Scenario, changes, hundredths, default_changed_odds, valid_malay_odds, scenario_result,
}

-- The next whole number that is not 0, and from -1 the one before
abbrev pub step_from : ℤ → ℤ
step_from (pos n) = pos (suc n)
step_from (negsuc zero) = negsuc 1
step_from (negsuc (suc n)) = negsuc n

abbrev all_below : ℕ → (ℕ → Bool) → Bool
all_below zero p = true
all_below (suc n) p = p n && all_below n p

all_below_lem : (n : ℕ) (p : ℕ → Bool) (x : ℕ) → all_below n p ≡ true → x < n → p x ≡ true
all_below_lem zero p x h lt = absurd (omega arith)
all_below_lem (suc n) p x h lt = ground (arith, all_below_lem n p x)

abbrev steps : ℤ → Bool
steps k = number_eq (default_changed_odds (hundredths k)) (hundredths (step_from k))

positive_steps : all_below 101 (λ n. steps (pos n)) ≡ true
unfolding default_changed_odds ◌+ℤ◌
positive_steps = refl

negative_steps : all_below 100 (λ n. steps (negsuc n)) ≡ true
unfolding default_changed_odds ◌+ℤ◌
negative_steps = refl

number_eq-≡ : (a b : Number) → number_eq a b ≡ true → a ≡ b
number_eq-≡ (fin a) (fin b) h = ap fin (eq_of_eqb a b h)
number_eq-≡ infinity infinity h = refl
number_eq-≡ neg_infinity neg_infinity h = refl
number_eq-≡ _ _ h = absurd (ground arith)

-- From odds of two decimals, between -1 and 1, the default odds are those of the next hundredth that
-- is not 0: one higher, and from -0.01 one lower.
pub default_changed_odds-hundredths :
    (k : ℤ) → magnitude k ≤ 100 → default_changed_odds (hundredths k) ≡ hundredths (step_from k)
default_changed_odds-hundredths (pos n) h =
    number_eq-≡ _ _ (all_below_lem 101 (λ n. steps (pos n)) n positive_steps (omega arith))
default_changed_odds-hundredths (negsuc n) h =
    number_eq-≡ _ _ (all_below_lem 100 (λ n. steps (negsuc n)) n negative_steps (omega arith))

valid_step :
    (k : ℤ)
    → magnitude k ≤ 100
    → valid_malay_odds (hundredths (step_from k)) ≡ not (eqb_ℤ k (pos 100))
unfolding valid_malay_odds
valid_step (pos n) h = ground arith
valid_step (negsuc zero) h = refl
valid_step (negsuc (suc n)) h = ground arith

other_step : (k : ℤ) → number_eq (hundredths (step_from k)) (hundredths k) ≡ false
other_step (pos n) = ground arith
other_step (negsuc zero) = refl
other_step (negsuc (suc n)) = ground arith

if_twice_negated :
    (b : Bool) (x y : Outcome SimulatedPlaceBetResult)
    → (if not (not b) then x else y) ≡ (if b then x else y)
if_twice_negated true x y = refl
if_twice_negated false x y = refl

abbrev pub changing : Scenario
changing = record { outcome = changes; offered_odds = none }

module _ (stable_part : BookmakerCode → String → String) (bookmaker : BookmakerCode) where
  -- A scenario of changed odds without odds of its own answers a request at odds of two decimals,
  -- between -1 and 1, with the odds of the next hundredth that is not 0, except at odds of 1, where
  -- it throws: the next hundredth is no Malay odds.
  pub scenario_result-hundredths :
      (clock : Clock) (request : SimulatedPlaceBetRequest) (k : ℤ)
      → request.expected_odds ≡ hundredths k
      → magnitude k ≤ 100
      → scenario_result stable_part bookmaker changing clock request ≡ (
          if eqb_ℤ k (pos 100)
          then threw "simulated offered odds must be valid Malay odds"
          else returned (odds_changed clock.now_iso (hundredths k) (hundredths (step_from k))))
  unfolding scenario_result
  scenario_result-hundredths clock request k e h =
      rw (e, default_changed_odds-hundredths k h)
        (rw (valid_step k h, other_step k)
          (if_twice_negated (eqb_ℤ k (pos 100))
            (threw "simulated offered odds must be valid Malay odds")
            (returned (odds_changed clock.now_iso (hundredths k) (hundredths (step_from k))))))
