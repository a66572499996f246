-- ===== src/SimulatedBets.antt =====
-- The simulated bookmaker (collector/shared/src/actions.ts): `createSimulatedPlaceBetHandler` as a
-- method on its map of results. A `SimulatedBetValidationError` is its message.
pub mod Replay
pub mod Odds
mod Tests
use surebet.Base.{
  ℕ, suc, ◌*◌, String, Bool, true, false, not, ◌&&◌, ◌||◌, Option, none, some, ◌==◌, or_else,
  if◌then◌else◌,
}
use surebet.Base.Int.{ℤ, pos, negsuc, sub_ℕ}
use surebet.Base.Outcome.{Outcome, returned, threw, Method}
use surebet.Base.Text.{◌^^◌, falsy}
use surebet.Clock.{Clock}
use surebet.JsMap.{JsMap, get}
use surebet.JsMap.Bounded.{set_bounded}
use surebet.Doubles.{double_plus, round_hundredths}
use surebet.Number.{
  Number, fin, zero_number, whole, is_finite, number_eq, number_le, json_number_eq, is_safe_integer,
}
use surebet.Contracts.Odds.{BookmakerCode, eightxbet, jun88}
use surebet.Contracts.Bets.{
  Sequence, first_leg, second_leg, SimulatedPlaceBetRequest, SimulatedPlaceBetResult,
  ticket_accepted, odds_changed,
}

pub data ScenarioOutcome : Type 0 where
  accepts changes : ScenarioOutcome

-- `offeredOdds` as a function of the request; a fixed number is a constant function.
pub record Scenario : Type 0 where
  pub outcome : ScenarioOutcome
  pub offered_odds : Option (SimulatedPlaceBetRequest → Number)

-- The fields that `simulatedRequestFingerprint` writes as JSON.
pub record Fingerprint : Type 0 where
  pub action_id : String
  pub opportunity_id : String
  pub leg_id : String
  pub sequence : Sequence
  pub fixture_id : String
  pub market_id : String
  pub outcome_id : String
  pub expected_odds : Number
  pub stake_vnd : Number

pub simulated_request_fingerprint : SimulatedPlaceBetRequest → Fingerprint
simulated_request_fingerprint request = record {
  action_id = request.action_id;
  opportunity_id = request.opportunity_id;
  leg_id = request.leg_id;
  sequence = request.sequence;
  fixture_id = request.fixture_id;
  market_id = request.market_id;
  outcome_id = request.outcome_id;
  expected_odds = request.expected_odds;
  stake_vnd = request.stake_vnd;
}

abbrev pub sequence_eq : Sequence → Sequence → Bool
sequence_eq first_leg first_leg = true
sequence_eq second_leg second_leg = true
sequence_eq _ _ = false

-- `===` on the JSON texts
pub fingerprint_eq : Fingerprint → Fingerprint → Bool
fingerprint_eq a b =
    a.action_id == b.action_id
    && a.opportunity_id == b.opportunity_id
    && a.leg_id == b.leg_id
    && sequence_eq a.sequence b.sequence
    && a.fixture_id == b.fixture_id
    && a.market_id == b.market_id
    && a.outcome_id == b.outcome_id
    && json_number_eq a.expected_odds b.expected_odds
    && json_number_eq a.stake_vnd b.stake_vnd

pub record CachedResult : Type 0 where
  pub fingerprint : Fingerprint
  pub result : SimulatedPlaceBetResult

unfoldable pub valid_malay_odds : Number → Bool
valid_malay_odds value =
    is_finite value
    && not (number_eq value zero_number)
    && number_le (fin (negsuc 999_999)) value
    && number_le value (whole 1)

-- The message of the error that `validateRequest` throws, if any.
unfoldable pub validate_request : Clock → SimulatedPlaceBetRequest → Option String
unfolding valid_malay_odds
validate_request clock request =
    if falsy request.action_id
      || falsy request.opportunity_id
      || falsy request.leg_id
      || falsy request.idempotency_key
    then some "simulated bet identity is incomplete"
    else if falsy request.fixture_id || falsy request.market_id || falsy request.outcome_id
    then some "simulated selection identity is incomplete"
    else if not (valid_malay_odds request.expected_odds)
    then some "expected odds must be valid Malay odds"
    else if not (is_safe_integer request.stake_vnd) || number_le request.stake_vnd zero_number
    then some "stakeVnd must be a positive integer"
    else if not (is_finite (clock.date_parse request.expires_at))
        || number_le (clock.date_parse request.expires_at) clock.now
    then some "simulated bet command has expired"
    else none

-- So many hundredths
abbrev pub hundredths : ℤ → Number
hundredths (pos n) = fin (pos (n * 10_000))
hundredths (negsuc n) = fin (sub_ℕ 0 (suc n * 10_000))

-- `Math.round((expectedOdds + step) * 100) / 100`, in doubles
unfoldable pub changed_by : ℤ → ℤ → Number
unfolding double_plus round_hundredths
changed_by step expected = hundredths (round_hundredths (double_plus expected step))

-- A hundredth higher, or a hundredth lower
unfoldable pub default_changed_odds : Number → Number
unfolding changed_by
default_changed_odds (fin expected) =
    let increased = changed_by (pos 10_000) expected in
    if not (number_eq increased zero_number) && not (number_eq increased (fin expected))
    then increased
    else changed_by (negsuc 9_999) expected
default_changed_odds expected = expected

-- `stable_part` is the upper-case start of the SHA-256 digest of the bookmaker and the key.
pub simulated_ticket_id :
    (BookmakerCode → String → String) → BookmakerCode → SimulatedPlaceBetRequest → String
simulated_ticket_id stable_part eightxbet request =
    "SIM-8X-" ^^ stable_part eightxbet request.idempotency_key
simulated_ticket_id stable_part jun88 request =
    "SIM-J88-" ^^ stable_part jun88 request.idempotency_key

-- The scenario's own odds for the request.
abbrev pub configured_odds :
    Option (SimulatedPlaceBetRequest → Number) → SimulatedPlaceBetRequest → Option Number
configured_odds none request = none
configured_odds (some f) request = some (f request)

module _ (stable_part : BookmakerCode → String → String) (bookmaker_id : BookmakerCode) where
  -- The answer to a valid request.
  pub scenario_result :
      Scenario → Clock → SimulatedPlaceBetRequest → Outcome SimulatedPlaceBetResult
  unfolding valid_malay_odds
  scenario_result scenario clock request = elim scenario.outcome [
    | changes ↦
        let offered =
          or_else (configured_odds scenario.offered_odds request)
            (default_changed_odds request.expected_odds) in
        if not (valid_malay_odds offered)
        then threw "simulated offered odds must be valid Malay odds"
        else if number_eq offered request.expected_odds
        then threw "simulated changed odds must differ from expected odds"
        else returned (odds_changed clock.now_iso request.expected_odds offered)
    | accepts ↦ returned (
        ticket_accepted clock.now_iso (simulated_ticket_id stable_part bookmaker_id request)
          request.expected_odds request.stake_vnd)
  ]

  -- A result that was computed is stored under the key; an error stores nothing.
  pub remember :
      SimulatedPlaceBetRequest
      → Outcome SimulatedPlaceBetResult
      → Method (JsMap CachedResult) SimulatedPlaceBetResult
  remember request (threw e) results = (threw e, results)
  remember request (returned r) results = (
    returned r,
    set_bounded request.idempotency_key
        (record { fingerprint = simulated_request_fingerprint request; result = r }) results,
  )

  -- The handler that `createSimulatedPlaceBetHandler` returns.
  pub place_bet :
      Scenario
      → Clock
      → SimulatedPlaceBetRequest
      → Method (JsMap CachedResult) SimulatedPlaceBetResult
  place_bet scenario clock request results = elim (get request.idempotency_key results) [
    | some cached ↦
        if not (fingerprint_eq cached.fingerprint (simulated_request_fingerprint request))
        then (threw "idempotency key was reused with a different simulated bet payload", results)
        else (returned cached.result, results)
    | none ↦ elim (validate_request clock request) [
      | some e ↦ (threw e, results)
      | none ↦ remember request (scenario_result scenario clock request) results
    ]
  ]

-- `configuredSimulatedPlaceBetHandler`
abbrev pub configured_scenario : Scenario
configured_scenario = record { outcome = accepts; offered_odds = none }
