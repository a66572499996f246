-- ===== src/Contracts/Odds.antt =====
-- Sources, quotes, deltas and market snapshots (collector/shared/src/contracts.ts). An optional
-- property is an `Option`.
use surebet.Base.{String, Bool, true, false, Option, none, some, List, ◌==◌}
use surebet.Number.{Number}

pub data BookmakerCode : Type 0 where
  eightxbet jun88 : BookmakerCode

pub data LobbyCode : Type 0 where
  default cmd : LobbyCode

abbrev pub bookmaker_text : BookmakerCode → String
bookmaker_text eightxbet = "8xbet"
bookmaker_text jun88 = "jun88"

abbrev pub lobby_text : LobbyCode → String
lobby_text default = "default"
lobby_text cmd = "cmd"

pub record CollectorSource : Type 0 where
  pub collector_id : String
  pub bookmaker_id : BookmakerCode
  pub lobby_id : LobbyCode

pub data MatchState : Type 0 where
  upcoming live finished unknown : MatchState

pub data OddsFormat : Type 0 where
  indonesian malay : OddsFormat

pub record OddsSelection : Type 0 where
  pub fixture_id : String
  pub sport : Option String
  pub home_team : Option String
  pub away_team : Option String
  pub league_name : Option String
  pub match_state : Option MatchState
  pub event_start_at : Option String
  pub market_id : String
  pub outcome_id : String
  pub outcome_name : String
  pub odds : Number
  pub available_stake : Number
  pub suspended : Bool
  pub source_event_id : Option String
  pub raw_odds : Option Number
  pub odds_format : Option OddsFormat
  pub provider_ref : Option String

pub record OddsSnapshot : Type 0 where
  pub source : CollectorSource
  pub collected_at : String
  pub selections : List OddsSelection

pub data DeltaOp : Type 0 where
  upsert remove : DeltaOp

pub record OddsDelta : Type 0 where
  pub source : CollectorSource
  pub collected_at : String
  pub fixture_id : String
  pub sport : Option String
  pub home_team : Option String
  pub away_team : Option String
  pub league_name : Option String
  pub match_state : Option MatchState
  pub event_start_at : Option String
  pub market_id : String
  pub outcome_id : String
  pub outcome_name : String
  pub odds : Number
  pub available_stake : Number
  pub suspended : Bool
  pub source_event_id : Option String
  pub raw_odds : Option Number
  pub odds_format : Option OddsFormat
  pub provider_ref : Option String
  pub op : DeltaOp

pub data Side : Type 0 where
  home away over under : Side

pub record FixtureMarketOutcome : Type 0 where
  pub outcome_id : String
  pub outcome_name : String
  pub side : Side
  pub odds : Number
  pub raw_odds : Option Number
  pub odds_format : Option OddsFormat
  pub provider_ref : Option String
  pub available_stake : Number
  pub suspended : Bool

pub data Period : Type 0 where
  full_time first_half : Period

pub data MarketStatus : Type 0 where
  open_market suspended_market : MarketStatus

pub record FixtureMarket : Type 0 where
  pub market_id : String
  pub period : Period
  pub normalized_line : String
  pub status : MarketStatus
  pub outcomes : List FixtureMarketOutcome

pub record FixtureMarketSnapshot : Type 0 where
  pub source : CollectorSource
  pub fixture_id : String
  pub sport : Option String
  pub home_team : Option String
  pub away_team : Option String
  pub league_name : Option String
  pub match_state : Option MatchState
  pub event_start_at : Option String
  pub source_event_id : Option String
  pub observed_at : String
  pub complete : Bool
  pub markets : List FixtureMarket

pub record CollectorHeartbeat : Type 0 where
  pub collector_id : String
  pub bookmaker_id : BookmakerCode
  pub lobby_id : LobbyCode
  pub sent_at : String

pub record AccountBalanceObservation : Type 0 where
  pub source : CollectorSource
  pub observed_at : String
  pub amount : Number
  pub currency : String
  pub amount_vnd : Option Number
  pub display_text : Option String

-- `===` on the optional properties: two that are missing are equal.
abbrev pub option_text_eq : Option String → Option String → Bool
option_text_eq none none = true
option_text_eq (some a) (some b) = a == b
option_text_eq _ _ = false

abbrev pub bookmaker_eq : BookmakerCode → BookmakerCode → Bool
bookmaker_eq eightxbet eightxbet = true
bookmaker_eq jun88 jun88 = true
bookmaker_eq _ _ = false

abbrev pub lobby_eq : LobbyCode → LobbyCode → Bool
lobby_eq default default = true
lobby_eq cmd cmd = true
lobby_eq _ _ = false

abbrev pub format_eq : Option OddsFormat → Option OddsFormat → Bool
format_eq none none = true
format_eq (some indonesian) (some indonesian) = true
format_eq (some malay) (some malay) = true
format_eq _ _ = false

abbrev pub bool_eq : Bool → Bool → Bool
bool_eq true true = true
bool_eq false false = true
bool_eq _ _ = false
