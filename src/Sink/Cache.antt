-- ===== src/Sink/Cache.antt =====
-- What the stream sink remembers of the odds that it was given: `selectionCacheKey`,
-- `selectionFromDelta`, `replaceLatestSnapshot` and `applyLatestDeltas` of
-- collector/shared/src/backend/backend-collector-stream-sink.ts.
pub mod Latest
mod Tests
use surebet.Base.{
  String, Bool, true, false, not, ◌&&◌, ◌||◌, Option, none, some, List, [], ◌∷◌, if◌then◌else◌,
}
use surebet.Base.Text.{◌^^◌}
use surebet.JsMap.{JsMap, set, delete, empty}
use surebet.Number.{Number, is_finite, number_lt}
use surebet.Contracts.Odds.{OddsSelection, OddsSnapshot, OddsDelta, DeltaOp, upsert, remove}

unfoldable pub selection_cache_key : String → String → String → String
selection_cache_key fixture_id market_id outcome_id =
    fixture_id ^^ "\0" ^^ market_id ^^ "\0" ^^ outcome_id

unfoldable pub selection_from_delta : OddsDelta → OddsSelection
selection_from_delta delta = record {
  fixture_id = delta.fixture_id;
  sport = delta.sport;
  home_team = delta.home_team;
  away_team = delta.away_team;
  league_name = delta.league_name;
  match_state = delta.match_state;
  event_start_at = delta.event_start_at;
  market_id = delta.market_id;
  outcome_id = delta.outcome_id;
  outcome_name = delta.outcome_name;
  odds = delta.odds;
  available_stake = delta.available_stake;
  suspended = delta.suspended;
  source_event_id = delta.source_event_id;
  raw_odds = delta.raw_odds;
  odds_format = delta.odds_format;
  provider_ref = delta.provider_ref;
}

-- The fields `latestBootstrap`, `latestSelections`, `latestSelectionObservedAt` and
-- `latestFixtureMetadata`.
pub record Cache : Type 0 where
  pub latest_bootstrap : Option OddsSnapshot
  pub latest_selections : JsMap OddsSelection
  pub latest_selection_observed_at : JsMap String
  pub latest_fixture_metadata : JsMap OddsSelection

abbrev pub empty_cache : Cache
empty_cache = record {
  latest_bootstrap = none;
  latest_selections = empty;
  latest_selection_observed_at = empty;
  latest_fixture_metadata = empty;
}

abbrev pub selection_key : OddsSelection → String
selection_key s = selection_cache_key s.fixture_id s.market_id s.outcome_id

abbrev pub delta_key : OddsDelta → String
delta_key d = selection_cache_key d.fixture_id d.market_id d.outcome_id

-- One round of the loop of `replaceLatestSnapshot`.
unfoldable pub store_selection : String → OddsSelection → Cache → Cache
store_selection collected_at s c = record c {
  latest_selections = set (selection_key s) s c.latest_selections;
  latest_selection_observed_at = set (selection_key s) collected_at c.latest_selection_observed_at;
  latest_fixture_metadata = set s.fixture_id s c.latest_fixture_metadata;
}

unfoldable pub store_selections : String → List OddsSelection → Cache → Cache
store_selections collected_at [] c = c
store_selections collected_at (s ∷ rest) c =
    store_selections collected_at rest (store_selection collected_at s c)

unfoldable pub replace_latest_snapshot : OddsSnapshot → Cache → Cache
replace_latest_snapshot snapshot c =
    store_selections snapshot.collected_at snapshot.selections
      (record empty_cache { latest_bootstrap = some (record snapshot { selections = [] }) })

-- The writes of one delta to the three maps.
pub apply_delta : OddsDelta → Cache → Cache
apply_delta d c = elim d.op [
  | upsert ↦ record c {
    latest_selections = set (delta_key d) (selection_from_delta d) c.latest_selections;
    latest_selection_observed_at = set (delta_key d) d.collected_at c.latest_selection_observed_at;
    latest_fixture_metadata = set d.fixture_id (selection_from_delta d) c.latest_fixture_metadata;
  }
  | remove ↦ record c {
    latest_selections = delete (delta_key d) c.latest_selections;
    latest_selection_observed_at = delete (delta_key d) c.latest_selection_observed_at;
    latest_fixture_metadata = set d.fixture_id (selection_from_delta d) c.latest_fixture_metadata;
  }
]

pub apply_deltas : List OddsDelta → Cache → Cache
apply_deltas [] c = c
apply_deltas (d ∷ rest) c = apply_deltas rest (apply_delta d c)

-- `Date.parse` is a parameter: milliseconds, or NaN.
module _ (date_parse : String → Number) where
  -- Whether the delta moves `collectedAt` forward.
  pub is_later : String → String → Bool
  is_later delta_at collected_at =
      is_finite (date_parse delta_at)
      && (not (is_finite (date_parse collected_at))
          || number_lt (date_parse collected_at) (date_parse delta_at))

  -- `collectedAt` after the loop over the deltas
  pub latest_collected_at : String → List OddsDelta → String
  latest_collected_at collected_at [] = collected_at
  latest_collected_at collected_at (d ∷ rest) =
      latest_collected_at
        (if is_later d.collected_at collected_at then d.collected_at else collected_at) rest

  unfoldable pub apply_latest_deltas : List OddsDelta → Cache → Cache
  apply_latest_deltas deltas c = elim c.latest_bootstrap [
    | none ↦ c
    | some bootstrap ↦ record (apply_deltas deltas c) {
      latest_bootstrap =
          some
            (record bootstrap { collected_at = latest_collected_at bootstrap.collected_at deltas });
    }
  ]
