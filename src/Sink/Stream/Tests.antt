-- ===== src/Sink/Stream/Tests.antt =====
-- The bootstrap of a snapshot with one selection.
use surebet.Base.{◌≡◌, refl, true, false, none, some, List, [], ◌∷◌, map, length, All}
use surebet.Base.Outcome.{returned}
use surebet.Base.Int.{pos}
use surebet.Number.{fin, whole}
use surebet.Unicode.{Unicode}
use surebet.Contracts.Odds.{OddsSnapshot, jun88, cmd, malay}
use surebet.Sink.Stream.{Wire, QuoteItem, Stream, quote_item, send_bootstrap_snapshot}
use surebet.Sink.Stream.Bootstrap.{
  concat, IsBatch, bootstrap_frames, sent_after, send_bootstrap_snapshot_complete,
}

abbrev unicode : Unicode
unicode = record {
  nfkd = λ s. s;
  without_marks = λ s. s;
  to_lower_case = λ s. s;
  letters_and_spaces = λ s. s;
  locale_compare = λ _ _. pos 0;
}

abbrev wire : Wire
wire = record { unicode = unicode; event_start_at = λ _ _ at. at }

abbrev snapshot : OddsSnapshot
snapshot = record {
  source = record { collector_id = "collector"; bookmaker_id = jun88; lobby_id = cmd };
  collected_at = "now";
  selections =
      record {
        fixture_id = "fixture";
        sport = none;
        home_team = some "Home";
        away_team = some "Away";
        league_name = none;
        match_state = none;
        event_start_at = none;
        market_id = "hdp-ah";
        outcome_id = "outcome";
        outcome_name = "Home -0.5";
        odds = fin (pos 900_000);
        available_stake = whole 0;
        suspended = false;
        source_event_id = none;
        raw_odds = none;
        odds_format = some malay;
        provider_ref = none;
      }
      ∷ [];
}

abbrev stream : Stream
stream = record { session_id = "session"; seq = 4; is_open = true; sent = [] }

send_bootstrap_snapshot_complete_example :
    (groups : List (List QuoteItem)) × (send_bootstrap_snapshot wire "id" snapshot stream
      ≡ (returned tt, sent_after (bootstrap_frames "session" 4 "id" snapshot groups) stream))
    × (concat groups ≡ map (quote_item wire snapshot) snapshot.selections)
    × All IsBatch groups
    × (length (concat groups) ≡ length snapshot.selections)
send_bootstrap_snapshot_complete_example =
    send_bootstrap_snapshot_complete wire "id" snapshot stream refl
