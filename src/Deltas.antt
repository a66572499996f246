-- ===== src/Deltas.antt =====
-- The difference of two snapshots as a list of deltas (`selectionMap`, `buildDeltas` and
-- `heartbeatOf` of collector/shared/src/bookmakers/streaming-utils.ts).
pub mod Roundtrip
pub mod Quotes
mod Tests
use surebet.Base.{
  String, Bool, true, false, not, ◌||◌, Option, none, some, List, [], ◌∷◌, ◌++◌, ◌==◌,
  if◌then◌else◌,
}
use surebet.JsMap.{JsMap, get, has, set_all, empty}
use surebet.Number.{Number, number_eq}
use surebet.Contracts.Odds.{
  CollectorSource, OddsSelection, OddsSnapshot, DeltaOp, upsert, remove, OddsDelta,
  CollectorHeartbeat, option_text_eq, format_eq, bool_eq,
}

keyed_by_outcome : List OddsSelection → List (String × OddsSelection)
keyed_by_outcome [] = []
keyed_by_outcome (s ∷ rest) = (s.outcome_id, s) ∷ keyed_by_outcome rest

pub selection_map : OddsSnapshot → JsMap OddsSelection
selection_map snapshot = set_all (keyed_by_outcome snapshot.selections) empty

-- `===` on `rawOdds`
abbrev pub raw_odds_eq : Option Number → Option Number → Bool
raw_odds_eq none none = true
raw_odds_eq (some a) (some b) = number_eq a b
raw_odds_eq _ _ = false

-- The test of `buildDeltas` on a quote that was there before.
pub quote_changed : OddsSelection → OddsSelection → Bool
quote_changed prev selection =
    not (number_eq prev.odds selection.odds)
    || not (raw_odds_eq prev.raw_odds selection.raw_odds)
    || not (format_eq prev.odds_format selection.odds_format)
    || not (option_text_eq prev.provider_ref selection.provider_ref)
    || not (prev.outcome_name == selection.outcome_name)
    || not (number_eq prev.available_stake selection.available_stake)
    || not (bool_eq prev.suspended selection.suspended)

-- `!prev || …`
pub needs_upsert : Option OddsSelection → OddsSelection → Bool
needs_upsert none selection = true
needs_upsert (some prev) selection = quote_changed prev selection

-- The object that both loops push.
pub delta_of : OddsSnapshot → OddsSelection → Bool → DeltaOp → OddsDelta
delta_of snapshot s suspended op = record {
  source = snapshot.source;
  collected_at = snapshot.collected_at;
  fixture_id = s.fixture_id;
  sport = s.sport;
  home_team = s.home_team;
  away_team = s.away_team;
  league_name = s.league_name;
  match_state = s.match_state;
  event_start_at = s.event_start_at;
  market_id = s.market_id;
  outcome_id = s.outcome_id;
  outcome_name = s.outcome_name;
  odds = s.odds;
  available_stake = s.available_stake;
  suspended = suspended;
  source_event_id = s.source_event_id;
  raw_odds = s.raw_odds;
  odds_format = s.odds_format;
  provider_ref = s.provider_ref;
  op = op;
}

module _ (snapshot : OddsSnapshot) where
  -- The loop over `next.entries()`.
  pub upserts : JsMap OddsSelection → JsMap OddsSelection → List OddsDelta
  upserts previous [] = []
  upserts previous ((id, s) ∷ next) =
      let rest = upserts previous next in
      if needs_upsert (get id previous) s
      then delta_of snapshot s s.suspended upsert ∷ rest
      else rest

  -- The loop over `previous.entries()`.
  pub removals : JsMap OddsSelection → JsMap OddsSelection → List OddsDelta
  removals next [] = []
  removals next ((id, s) ∷ previous) =
      let rest = removals next previous in
      if has id next then rest else delta_of snapshot s true remove ∷ rest

  pub build_deltas : JsMap OddsSelection → JsMap OddsSelection → List OddsDelta
  build_deltas previous next = upserts previous next ++ removals next previous

-- `heartbeatOf`, at a time of sending
pub heartbeat_of : CollectorSource → String → CollectorHeartbeat
heartbeat_of source sent_at = record {
  collector_id = source.collector_id;
  bookmaker_id = source.bookmaker_id;
  lobby_id = source.lobby_id;
  sent_at = sent_at;
}
