-- ===== src/SimulatedBets/Replay.antt =====
-- Answers of the simulated bookmaker, and repeated requests
-- (`createSimulatedPlaceBetHandler` of collector/shared/src/actions.ts).
use surebet.Base.{String, ◌≡◌, refl, true, false, eq_refl}
use surebet.Base.Text.{◌^^◌, falsy}
use surebet.Base.Outcome.{Outcome}
use surebet.Clock.{Clock}
use surebet.JsMap.{JsMap}
use surebet.Number.{
  zero_number, number_eq, number_le, is_finite, is_safe_integer, json_number_eq_self,
}
use surebet.Contracts.Odds.{BookmakerCode, eightxbet, jun88}
use surebet.Contracts.Bets.{
  Sequence, first_leg, second_leg, SimulatedPlaceBetRequest, SimulatedPlaceBetResult,
  ticket_accepted, odds_changed,
}
use surebet.SimulatedBets.{Fingerprint, sequence_eq, fingerprint_eq, valid_malay_odds}

pub sequence_eq_self : (s : Sequence) → sequence_eq s s ≡ true
sequence_eq_self first_leg = refl
sequence_eq_self second_leg = refl

pub fingerprint_eq_self : (f : Fingerprint) → fingerprint_eq f f ≡ true
unfolding fingerprint_eq
fingerprint_eq_self f = simp (eq_refl, json_number_eq_self, sequence_eq_self)

-- The ticket ids of a bookmaker, from the upper-case start of the digest of it and a key
abbrev pub ticket_of : (BookmakerCode → String → String) → BookmakerCode → String → String
ticket_of stable_part eightxbet key = "SIM-8X-" ^^ stable_part eightxbet key
ticket_of stable_part jun88 key = "SIM-J88-" ^^ stable_part jun88 key

-- What an answer says of its request, under these ticket ids.
abbrev pub Answers : (String → String) → SimulatedPlaceBetRequest → SimulatedPlaceBetResult → Type 0
Answers ticket_id request (ticket_accepted at ticket odds stake) =
    (odds ≡ request.expected_odds)
    × (stake ≡ request.stake_vnd)
    × (ticket ≡ ticket_id request.idempotency_key)
Answers ticket_id request (odds_changed at submitted offered) =
    (submitted ≡ request.expected_odds)
    × (valid_malay_odds offered ≡ true)
    × (number_eq offered request.expected_odds ≡ false)

-- What makes a request acceptable at a clock: seven texts that are not empty, the odds, the stake and
-- the time.
pub record IsAcceptable (clock : Clock) (request : SimulatedPlaceBetRequest) : Type 0 where
  pub has_action : falsy request.action_id ≡ false
  pub has_opportunity : falsy request.opportunity_id ≡ false
  pub has_leg : falsy request.leg_id ≡ false
  pub has_key : falsy request.idempotency_key ≡ false
  pub has_fixture : falsy request.fixture_id ≡ false
  pub has_market : falsy request.market_id ≡ false
  pub has_outcome : falsy request.outcome_id ≡ false
  pub malay_odds : valid_malay_odds request.expected_odds ≡ true
  pub whole_stake : is_safe_integer request.stake_vnd ≡ true
  pub positive_stake : number_le request.stake_vnd zero_number ≡ false
  pub known_expiry : is_finite (clock.date_parse request.expires_at) ≡ true
  pub unexpired : number_le (clock.date_parse request.expires_at) clock.now ≡ false
