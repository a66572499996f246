-- ===== src/Sink/Cache/Tests.antt =====
-- The cache on one quote.
use surebet.Base.{◌≡◌, false, none, [], ◌∷◌, if◌then◌else◌, is_some}
use surebet.JsMap.{get}
use surebet.Number.{whole}
use surebet.Contracts.Odds.{
  CollectorSource, OddsSnapshot, OddsDelta, DeltaOp, upsert, remove, jun88, cmd,
}
use surebet.Sink.Cache.{
  Cache, empty_cache, selection_from_delta, replace_latest_snapshot, apply_latest_deltas,
}
use surebet.Sink.Cache.Latest.{
  IsAligned, empty_cache-IsAligned, snapshot, deltas, run_updates, run_updates-IsAligned,
  get-apply_latest_deltas, after, last_word,
}

abbrev source : CollectorSource
source = record { collector_id = "collector"; bookmaker_id = jun88; lobby_id = cmd }

abbrev delta : DeltaOp → OddsDelta
delta op = record {
  source = source;
  collected_at = "2";
  fixture_id = "fixture";
  sport = none;
  home_team = none;
  away_team = none;
  league_name = none;
  match_state = none;
  event_start_at = none;
  market_id = "hdp-ah";
  outcome_id = "outcome";
  outcome_name = "Home -0.5";
  odds = whole 1;
  available_stake = whole 0;
  suspended = false;
  source_event_id = none;
  raw_odds = none;
  odds_format = none;
  provider_ref = none;
  op = op;
}

abbrev bootstrap : OddsSnapshot
bootstrap = record {
  source = source;
  collected_at = "1";
  selections = selection_from_delta (delta upsert) ∷ [];
}

run_updates-IsAligned_example : IsAligned (
    run_updates
      (λ _. whole 1)
      (snapshot bootstrap ∷ deltas (delta remove ∷ delta upsert ∷ []) ∷ [])
      empty_cache)
run_updates-IsAligned_example =
    run_updates-IsAligned (λ _. whole 1)
      (snapshot bootstrap ∷ deltas (delta remove ∷ delta upsert ∷ []) ∷ []) empty_cache
      empty_cache-IsAligned

abbrev before : Cache
before = replace_latest_snapshot bootstrap empty_cache

get-apply_latest_deltas_example :
    (get "fixture\0hdp-ah\0outcome"
        (apply_latest_deltas
          (λ _. whole 1)
          (delta upsert ∷ delta remove ∷ [])
          before).latest_selections
      ≡ (if is_some before.latest_bootstrap
          then after
              (last_word "fixture\0hdp-ah\0outcome" (delta upsert ∷ delta remove ∷ []))
              (get "fixture\0hdp-ah\0outcome" before.latest_selections)
          else get "fixture\0hdp-ah\0outcome" before.latest_selections))
    × ((if is_some before.latest_bootstrap
          then before
          else apply_latest_deltas (λ _. whole 1) (delta upsert ∷ delta remove ∷ []) before)
        ≡ before)
get-apply_latest_deltas_example =
    get-apply_latest_deltas (λ _. whole 1) "fixture\0hdp-ah\0outcome"
      (delta upsert ∷ delta remove ∷ []) (replace_latest_snapshot bootstrap empty_cache)
