-- ===== src/Sink/Replies.antt =====
-- What the simulated handlers store and send
-- (collector/shared/src/backend/backend-collector-stream-sink.ts).
use surebet.Base.{String, Bool, Option, or_else}
use surebet.Number.{Number, zero_number}
use surebet.Contracts.Odds.{OddsSelection, MatchState, unknown, OddsFormat}
use surebet.Contracts.Bets.{Sequence, SimulatedBetCommand, SimulatedPlaceBetResult}
use surebet.SimulatedBets.{Fingerprint}

pub record PreparedSimulatedSelection : Type 0 where
  pub action_id : String
  pub opportunity_id : String
  pub leg_id : String
  pub sequence : Sequence
  pub fixture_id : String
  pub market_id : String
  pub outcome_id : String
  pub selected_odds : Number

-- `serializeConfirmedSelection`; an unknown format is the empty text.
pub record ConfirmedSelection : Type 0 where
  pub fixture_id : String
  pub sport : String
  pub home_team : String
  pub away_team : String
  pub league_name : String
  pub match_state : MatchState
  pub event_start_at : String
  pub market_id : String
  pub outcome_id : String
  pub outcome_name : String
  pub odds : Number
  pub available_stake : Number
  pub suspended : Bool
  pub source_event_id : String
  pub raw_odds : Number
  pub odds_format : Option OddsFormat
  pub provider_ref : String

pub serialize_confirmed_selection : OddsSelection → ConfirmedSelection
serialize_confirmed_selection s = record {
  fixture_id = s.fixture_id;
  sport = or_else s.sport "football";
  home_team = or_else s.home_team "";
  away_team = or_else s.away_team "";
  league_name = or_else s.league_name "";
  match_state = or_else s.match_state unknown;
  event_start_at = or_else s.event_start_at "";
  market_id = s.market_id;
  outcome_id = s.outcome_id;
  outcome_name = s.outcome_name;
  odds = s.odds;
  available_stake = s.available_stake;
  suspended = s.suspended;
  source_event_id = or_else s.source_event_id "";
  raw_odds = or_else s.raw_odds zero_number;
  odds_format = s.odds_format;
  provider_ref = or_else s.provider_ref "";
}

-- The `response` objects; each carries `observed_at` first.
pub data Response : Type 0 where
  -- expected_odds, selected_odds, selection
  selected : String → Number → Number → ConfirmedSelection → Response
  -- expected_odds, error
  unavailable : String → Number → String → Response
  -- the simulated bookmaker's result
  placed : SimulatedPlaceBetResult → Response
  rejected failed : String → String → Response

-- The two kinds of simulated commands and of their responses
pub data SimulatedPhase : Type 0 where
  select_phase place_phase : SimulatedPhase

pub record CachedSimulatedPlacement : Type 0 where
  pub fingerprint : Fingerprint
  pub response : Response

-- The answer to a frame that did not parse; its result is `failed`.
pub record InvalidReply : Type 0 where
  pub request_id : String
  pub action_id : String
  pub opportunity_id : String
  pub leg_id : String
  pub sequence : Number
  pub idempotency_key : Option String
  pub observed_at : String
  pub error : String

-- What is sent in the end: nothing, an answer to a frame that did not parse, or an answer to a
-- command.
pub data Reply : Type 0 where
  silent : Reply
  invalid : InvalidReply → Reply
  -- the command, and the idempotency key if it has one
  answered : SimulatedBetCommand → Option String → Response → Reply
