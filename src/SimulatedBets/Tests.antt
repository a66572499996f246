-- ===== src/SimulatedBets/Tests.antt =====
-- A simulated bet, placed twice.
use surebet.Base.{ℕ, ◌≡◌, refl, arith}
use surebet.Base.Int.{pos, negsuc}
use surebet.Base.Outcome.{threw}
use surebet.Number
use surebet.Base.Int
use surebet.JsMap.Bounded
use surebet.Clock.{Clock}
use surebet.Number.{Number, fin, whole}
use surebet.Contracts.Odds.{jun88}
use surebet.Contracts.Bets.{SimulatedPlaceBetRequest, first_leg}
use surebet.SimulatedBets.{default_changed_odds, scenario_result}
use surebet.SimulatedBets.Odds.{
  changing, default_changed_odds-hundredths, scenario_result-hundredths,
}

abbrev clock : ℕ → Clock
clock now = record { date_parse = λ _. whole 2_000; now = whole now; now_iso = "now" }

abbrev request : SimulatedPlaceBetRequest
request = record {
  command = record {
    request_id = "request";
    action_id = "action";
    opportunity_id = "opportunity";
    leg_id = "leg";
    sequence = first_leg;
    fixture_id = "fixture";
    market_id = "hdp-ah";
    outcome_id = "outcome";
    expected_odds = fin (pos 900_000);
    stake_vnd = whole 5;
    expires_at = "soon";
    timeout_ms = whole 1_000;
  };
  idempotency_key = "key";
}

default_changed_odds-hundredths_example :
    default_changed_odds (fin (negsuc 9_999)) ≡ fin (negsuc 19_999)
default_changed_odds-hundredths_example = default_changed_odds-hundredths (negsuc 0) (omega arith)

scenario_result-hundredths_example :
    scenario_result
      (λ _ _. "ABC")
      jun88
      changing
      (clock 1_000)
      (record request { command = record request.command { expected_odds = whole 1 } })
    ≡ threw "simulated offered odds must be valid Malay odds"
scenario_result-hundredths_example =
    scenario_result-hundredths (λ _ _. "ABC") jun88 (clock 1_000)
      (record request { command = record request.command { expected_odds = whole 1 } }) (pos 100)
      refl (omega arith)

-- Where the double of a sum is less than the sum, and where it is the odds themselves
rounded_down : default_changed_odds (fin (pos 995_000)) ≡ whole 1
unfolding default_changed_odds Int.◌+ℤ◌
rounded_down = refl

absorbed : default_changed_odds (whole 1_000_000_000_000_000) ≡ whole 1_000_000_000_000_000
unfolding default_changed_odds Int.◌+ℤ◌
absorbed = refl
