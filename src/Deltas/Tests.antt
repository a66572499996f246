-- ===== src/Deltas/Tests.antt =====
-- The deltas between two small snapshots.
use surebet.Base.{String, false, none, some, [], ◌∷◌}
use surebet.Base.Int.{pos}
use surebet.Number.{Number, fin, whole}
use surebet.Contracts.Odds.{CollectorSource, OddsSelection, OddsSnapshot, jun88, cmd, malay}
use surebet.Deltas.{build_deltas, selection_map}
use surebet.Deltas.Quotes.{ShowsSame}
use surebet.Deltas.Roundtrip.{receive, receive-build_deltas}

abbrev source : CollectorSource
source = record { collector_id = "collector"; bookmaker_id = jun88; lobby_id = cmd }

abbrev selection : String → Number → OddsSelection
selection outcome odds = record {
  fixture_id = "fixture";
  sport = none;
  home_team = some "Home";
  away_team = some "Away";
  league_name = none;
  match_state = none;
  event_start_at = none;
  market_id = "hdp-ah";
  outcome_id = outcome;
  outcome_name = "Home -0.5";
  odds = odds;
  available_stake = whole 0;
  suspended = false;
  source_event_id = none;
  raw_odds = some odds;
  odds_format = some malay;
  provider_ref = none;
}

-- One outcome changes its odds, one goes and one comes.
abbrev before : OddsSnapshot
before = record {
  source = source;
  collected_at = "1";
  selections = selection "a" (fin (pos 900_000)) ∷ selection "b" (fin (pos 800_000)) ∷ [];
}

abbrev after : OddsSnapshot
after = record {
  source = source;
  collected_at = "2";
  selections = selection "a" (fin (pos 950_000)) ∷ selection "c" (fin (pos 700_000)) ∷ [];
}

receive-build_deltas_example :
    ShowsSame
      (receive
        (build_deltas after (selection_map before) (selection_map after))
        (selection_map before))
      (selection_map after)
receive-build_deltas_example = receive-build_deltas before after
