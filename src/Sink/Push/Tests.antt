-- ===== src/Sink/Push/Tests.antt =====
-- A sink that connects, sends a bootstrap and a beat, answers a command, loses its socket and sends a removal.
use surebet.Base.{
  String, ◌≡◌, refl, true, false, none, some, List, [], ◌∷◌, All, if◌then◌else◌, ltb, length,
}
use surebet.Base.Int.{pos, negsuc}
use surebet.Base.Text.{chars}
use surebet.Number.{fin, whole}
use surebet.Unicode.{Unicode}
use surebet.Contracts.Odds.{
  CollectorSource, OddsSelection, OddsSnapshot, jun88, cmd, malay, remove, OddsDelta,
}
use surebet.Sink.Cache.{selection_from_delta}
use surebet.Clock.{Clock}
use surebet.Sink.Requests.{missing, text, number, SimulateBetFrame}
use surebet.Sink.Markets.{fixture_market_snapshot_from_selections}
use surebet.Sink.Markets.Paired.{IsPaired, fixture_market_snapshot-IsPaired}
use surebet.Sink.Connection.{Identity, Turn, acknowledged}
use surebet.Sink.FixtureFrames.{Outside}
use surebet.Sink.Push.Operations.{Operation}

abbrev unicode : Unicode
unicode = record {
  nfkd = λ s. s;
  without_marks = λ s. s;
  to_lower_case = λ s. s;
  letters_and_spaces = λ s. s;
  locale_compare = λ s t. if ltb (length (chars s)) (length (chars t)) then negsuc 0 else pos 1;
}

abbrev outside : Outside
outside = record {
  wire = record { unicode = unicode; event_start_at = λ _ _ at. at };
  normalize_asian_line = λ s. s;
  digest = λ _. "digest";
  date_parse = λ _. whole 1;
}

abbrev source : CollectorSource
source = record { collector_id = "collector"; bookmaker_id = jun88; lobby_id = cmd }

abbrev me : Identity
me = record { source = source; account_id = "account"; is_version_4 = false; started_at = "start" }

abbrev delta : OddsDelta
delta = record {
  source = source;
  collected_at = "now";
  fixture_id = "fixture";
  sport = none;
  home_team = some "home";
  away_team = some "away";
  league_name = none;
  match_state = none;
  event_start_at = none;
  market_id = "hdp-ah";
  outcome_id = "outcome";
  outcome_name = "home -0.5";
  odds = fin (pos 900_000);
  available_stake = whole 0;
  suspended = false;
  source_event_id = none;
  raw_odds = none;
  odds_format = some malay;
  provider_ref = none;
  op = remove;
}

abbrev selection : OddsSelection
selection = selection_from_delta delta

abbrev other_selection : OddsSelection
other_selection = record selection { outcome_id = "other"; outcome_name = "away -0.5" }

abbrev snapshot : OddsSnapshot
snapshot = record {
  source = source;
  collected_at = "now";
  selections = selection ∷ other_selection ∷ [];
}

abbrev turn : Turn
turn = record {
  session_id = "session";
  snapshot_id = "snapshot";
  answer =
      acknowledged
        (record { protocol_version = number (whole 3); account_id = text ""; source = none });
}

abbrev clock : Clock
clock = record { date_parse = λ _. whole 2; now = whole 1; now_iso = "now" }

-- A command without a fixture, which is answered as one that did not parse
abbrev stray : SimulateBetFrame
stray = record {
  session_id = text "session";
  request_id = text "request";
  action_id = text "action";
  opportunity_id = missing;
  leg_id = missing;
  sequence = missing;
  fixture_id = missing;
  market_id = missing;
  outcome_id = missing;
  expected_odds = missing;
  stake_vnd = missing;
  expires_at = missing;
  timeout_ms = missing;
  idempotency_key = missing;
}

abbrev operations : List Operation
operations =
    Operation.bootstrap turn snapshot
    ∷ Operation.beat turn (record {
      collector_id = "collector";
      bookmaker_id = jun88;
      lobby_id = cmd;
      sent_at = "later";
    })
    ∷ Operation.simulated_select turn clock stray
    ∷ Operation.lost
    ∷ Operation.deltas turn (delta ∷ [])
    ∷ []

fixture_market_snapshot-IsPaired_example :
    All IsPaired
      (fixture_market_snapshot_from_selections unicode
        (λ s. s)
        source
        selection
        (selection ∷ other_selection ∷ [])
        "now").markets
fixture_market_snapshot-IsPaired_example =
    fixture_market_snapshot-IsPaired unicode (λ s. s) source selection
      (selection ∷ other_selection ∷ []) "now"

-- The two selections make one market.
one_market :
    length
      (fixture_market_snapshot_from_selections unicode
        (λ s. s)
        source
        selection
        (selection ∷ other_selection ∷ [])
        "now").markets
    ≡ 1
unfolding fixture_market_snapshot_from_selections surebet.JsMap.values selection_from_delta
    surebet.Base.sort_by surebet.Base.Text.trim surebet.JsMap.set surebet.JsMap.get
one_market = refl
