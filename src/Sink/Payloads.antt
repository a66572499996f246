-- ===== src/Sink/Payloads.antt =====
-- What the frames of the stream sink carry besides quotes
-- (collector/shared/src/backend/backend-collector-stream-sink.ts).
use surebet.Base.{String, Bool, Option, List, or_else, map}
use surebet.Number.{Number, zero_number}
use surebet.Contracts.Odds.{
  CollectorSource, MatchState, unknown, OddsFormat, Side, FixtureMarketOutcome, Period,
  MarketStatus, FixtureMarket, FixtureMarketSnapshot,
}

-- `fixture` of a market snapshot
pub record FixtureFields : Type 0 where
  pub fixture_id : String
  pub sport : String
  pub home_team : String
  pub away_team : String
  pub league_name : String
  pub match_state : MatchState
  pub event_start_at : String

-- An unknown format is the empty text.
pub record OutcomeFields : Type 0 where
  pub outcome_id : String
  pub outcome_name : String
  pub side : Side
  pub odds : Number
  pub raw_odds : Number
  pub odds_format : Option OddsFormat
  pub provider_ref : String
  pub available_stake : Number
  pub suspended : Bool

pub record MarketFields : Type 0 where
  pub market_id : String
  pub period : Period
  pub normalized_line : String
  pub status : MarketStatus
  pub outcomes : List OutcomeFields

-- A `fixture_market_snapshot` without its session and its number
pub record MarketSnapshotFields : Type 0 where
  pub batch_id : String
  pub fingerprint : String
  pub source_event_id : String
  pub observed_at : String
  pub source : CollectorSource
  pub fixture : FixtureFields
  pub complete : Bool
  pub markets : List MarketFields

-- An item of a `fixture_observed_batch`
pub record ObservedFields : Type 0 where
  pub fixture_id : String
  pub batch_id : String
  pub fingerprint : String

-- `balance` of an `account_balance`
pub record BalanceFields : Type 0 where
  pub amount : Number
  pub currency : String
  pub amount_vnd : Option Number
  pub display_text : Option String

unfoldable pub outcome_fields : FixtureMarketOutcome → OutcomeFields
outcome_fields outcome = record {
  outcome_id = outcome.outcome_id;
  outcome_name = outcome.outcome_name;
  side = outcome.side;
  odds = outcome.odds;
  raw_odds = or_else outcome.raw_odds zero_number;
  odds_format = outcome.odds_format;
  provider_ref = or_else outcome.provider_ref "";
  available_stake = outcome.available_stake;
  suspended = outcome.suspended;
}

unfoldable pub market_fields : FixtureMarket → MarketFields
unfolding outcome_fields
market_fields market = record {
  market_id = market.market_id;
  period = market.period;
  normalized_line = market.normalized_line;
  status = market.status;
  outcomes = map outcome_fields market.outcomes;
}

-- With the normalized start of the event
unfoldable pub snapshot_fields :
    String → String → String → FixtureMarketSnapshot → MarketSnapshotFields
unfolding market_fields
snapshot_fields event_start_at batch_id fingerprint snapshot = record {
  batch_id = batch_id;
  fingerprint = fingerprint;
  source_event_id = or_else snapshot.source_event_id "";
  observed_at = snapshot.observed_at;
  source = snapshot.source;
  fixture = record {
    fixture_id = snapshot.fixture_id;
    sport = or_else snapshot.sport "football";
    home_team = or_else snapshot.home_team "";
    away_team = or_else snapshot.away_team "";
    league_name = or_else snapshot.league_name "";
    match_state = or_else snapshot.match_state unknown;
    event_start_at = event_start_at;
  };
  complete = snapshot.complete;
  markets = map market_fields snapshot.markets;
}
