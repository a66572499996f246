-- ===== src/Sink/Commands.antt =====
-- The parsers of quote confirmations and simulated bets
-- (collector/shared/src/backend/backend-collector-stream-sink.ts).
pub mod Valid
use surebet.Base.{
  ℕ, String, Bool, true, false, not, ◌&&◌, ◌||◌, Option, none, some, ◌==◌, or_else, if◌then◌else◌,
}
use surebet.Base.Text.{trim, falsy}
use surebet.Number.{
  Number, whole, zero_number, is_finite, number_eq, number_min, number_max, number_or,
}
use surebet.Contracts.Bets.{
  QuoteConfirmationRequest, Sequence, first_leg, second_leg, SimulatedBetCommand,
  SimulatedPlaceBetRequest,
}
use surebet.Sink.Requests.{
  Field, missing, other, text, number, SimulateBetFrame, clean_text, stake_of,
}

-- `Math.max(Math.min(timeout || 2_000, 3_000), 250)`
unfoldable pub clamped_timeout : Number → Number
clamped_timeout timeout =
    number_max (number_min (number_or timeout (whole 2_000)) (whole 3_000)) (whole 250)

pub record ConfirmQuoteFrame : Type 0 where
  pub request_id : Field
  pub fixture_id : Field
  pub market_id : Field
  pub outcome_id : Field
  pub timeout_ms : Field

-- JavaScript's conversions: `String(value ?? "")` and `Number(value)`.
pub record Conversions : Type 0 where
  pub to_text : Field → String
  pub to_number : Field → Number

pub parse_quote_confirmation_request :
    Conversions → ConfirmQuoteFrame → Option QuoteConfirmationRequest
parse_quote_confirmation_request js frame =
    if falsy (trim (js.to_text frame.request_id))
      || falsy (trim (js.to_text frame.fixture_id))
      || falsy (trim (js.to_text frame.market_id))
      || falsy (trim (js.to_text frame.outcome_id))
    then none
    else some (record {
      request_id = trim (js.to_text frame.request_id);
      fixture_id = trim (js.to_text frame.fixture_id);
      market_id = trim (js.to_text frame.market_id);
      outcome_id = trim (js.to_text frame.outcome_id);
      timeout_ms = clamped_timeout (js.to_number frame.timeout_ms);
    })

-- `ParsedSimulatedBetCommand`
pub record ParsedSimulatedBetCommand : Type 0 where
  pub command : SimulatedBetCommand
  pub open command use *
  pub session_id : String

pub record ParsedSimulatedPlaceBetRequest : Type 0 where
  pub request : SimulatedPlaceBetRequest
  pub open request use *
  pub session_id : String

-- Finite odds other than 0.
unfoldable pub simulated_odds : Field → Option Number
simulated_odds (number n) = if is_finite n && not (number_eq n zero_number) then some n else none
simulated_odds _ = none

unfoldable pub sequence_of : Field → Option Sequence
sequence_of (number n) =
    if number_eq n (whole 1)
    then some first_leg
    else if number_eq n (whole 2)
    then some second_leg
    else none
sequence_of _ = none

-- A timeout may be missing; given, it is finite.
unfoldable pub timeout_of : Field → Option Number
timeout_of missing = some (whole 2_000)
timeout_of (number n) = if is_finite n then some n else none
timeout_of _ = none

-- One of the texts that name things is missing.
unfoldable pub is_unnamed : SimulateBetFrame → Bool
is_unnamed frame =
    falsy (clean_text frame.session_id)
    || falsy (clean_text frame.request_id)
    || falsy (clean_text frame.action_id)
    || falsy (clean_text frame.opportunity_id)
    || falsy (clean_text frame.leg_id)
    || falsy (clean_text frame.fixture_id)
    || falsy (clean_text frame.market_id)
    || falsy (clean_text frame.outcome_id)

-- A text is missing, or the expiry is no time.
unfoldable pub is_incomplete : (String → Number) → SimulateBetFrame → Bool
is_incomplete date_parse frame =
    is_unnamed frame || not (is_finite (date_parse (clean_text frame.expires_at)))

-- The command of a complete frame.
unfoldable pub command_of :
    SimulateBetFrame → Number → Number → Sequence → Number → ParsedSimulatedBetCommand
command_of frame expected_odds stake_vnd sequence timeout_ms = record {
  command = record {
    request_id = clean_text frame.request_id;
    action_id = clean_text frame.action_id;
    opportunity_id = clean_text frame.opportunity_id;
    leg_id = clean_text frame.leg_id;
    sequence = sequence;
    fixture_id = clean_text frame.fixture_id;
    market_id = clean_text frame.market_id;
    outcome_id = clean_text frame.outcome_id;
    expected_odds = expected_odds;
    stake_vnd = stake_vnd;
    expires_at = clean_text frame.expires_at;
    timeout_ms = clamped_timeout timeout_ms;
  };
  session_id = clean_text frame.session_id;
}

unfoldable pub parse_simulated_bet_command :
    (String → Number) → SimulateBetFrame → Option ParsedSimulatedBetCommand
parse_simulated_bet_command date_parse frame = elim (simulated_odds frame.expected_odds) [
  | none ↦ none
  | some expected_odds ↦ elim (stake_of frame.stake_vnd) [
    | none ↦ none
    | some stake_vnd ↦ elim (sequence_of frame.sequence) [
      | none ↦ none
      | some sequence ↦ elim (timeout_of frame.timeout_ms) [
        | none ↦ none
        | some timeout_ms ↦
            if is_incomplete date_parse frame
            then none
            else some (command_of frame expected_odds stake_vnd sequence timeout_ms)
      ]
    ]
  ]
]

unfoldable pub parse_simulated_place_bet_request :
    (String → Number) → SimulateBetFrame → Option ParsedSimulatedPlaceBetRequest
parse_simulated_place_bet_request date_parse frame =
    elim (parse_simulated_bet_command date_parse frame) [
      | none ↦ none
      | some parsed ↦
          if falsy (clean_text frame.idempotency_key)
          then none
          else some (record {
            request = record {
              command = parsed.command;
              idempotency_key = clean_text frame.idempotency_key;
            };
            session_id = parsed.session_id;
          })
    ]
