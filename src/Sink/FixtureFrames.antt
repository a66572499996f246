-- ===== src/Sink/FixtureFrames.antt =====
-- The market snapshots of fixtures that the stream sink sends: `sendFixtureMarketSnapshot`,
-- `sendFixtureMarketSnapshots` and `fixtureMarketFingerprint` of
-- collector/shared/src/backend/backend-collector-stream-sink.ts.
use surebet.Base.{
  suc, String, Bool, ◌&&◌, Option, none, some, List, [], ◌∷◌, map, filter, or_else, sort_by, ◌==◌,
}
use surebet.Base.Outcome.{Method, ◌>>◌, pure}
use surebet.Base.Text.{◌^^◌}
use surebet.Base.Decimal.{number_text}
use surebet.JsMap.{get, set, values}
use surebet.Number.{Number, zero_number}
use surebet.Unicode.{locale_before}
use surebet.Contracts.Odds.{
  OddsSelection, Side, home, away, over, under, OddsFormat, Period, full_time, first_half,
  MarketStatus, FixtureMarketOutcome, FixtureMarket, FixtureMarketSnapshot,
}
use surebet.Sink.Cache.{Cache}
use surebet.Sink.Markets.{is_detector_market, fixture_market_snapshot_from_selections}
use surebet.Sink.Payloads.{snapshot_fields}
use surebet.Sink.Stream.{Wire, fixture_market_snapshot}
use surebet.Sink.Connection.{Identity, Sink, change, send_frame}

-- A market in `fixtureMarketFingerprint`
pub record CanonicalOutcome : Type 0 where
  pub outcome_id : String
  pub side : Side
  pub odds : Number
  pub raw_odds : Number
  pub odds_format : Option OddsFormat
  pub provider_ref : String
  pub suspended : Bool

pub record CanonicalMarket : Type 0 where
  pub market_id : String
  pub period : Period
  pub line : String
  pub status : MarketStatus
  pub outcomes : List CanonicalOutcome

-- What the sink takes from elsewhere: what the texts of a quote need, `normalizeAsianLine`, the SHA-256
-- of the JSON of the canonical markets, and `Date.parse`.
pub record Outside : Type 0 where
  pub wire : Wire
  pub normalize_asian_line : String → String
  pub digest : List CanonicalMarket → String
  pub date_parse : String → Number

unfoldable pub side_text : Side → String
side_text home = "home"
side_text away = "away"
side_text over = "over"
side_text under = "under"

unfoldable pub period_text : Period → String
period_text full_time = "FT"
period_text first_half = "1H"

unfoldable pub canonical_outcome : FixtureMarketOutcome → CanonicalOutcome
canonical_outcome outcome = record {
  outcome_id = outcome.outcome_id;
  side = outcome.side;
  odds = outcome.odds;
  raw_odds = or_else outcome.raw_odds zero_number;
  odds_format = outcome.odds_format;
  provider_ref = or_else outcome.provider_ref "";
  suspended = outcome.suspended;
}

module _ (outside : Outside) where
  unfoldable pub canonical_market : FixtureMarket → CanonicalMarket
  unfolding canonical_outcome side_text
  canonical_market market = record {
    market_id = market.market_id;
    period = market.period;
    line = market.normalized_line;
    status = market.status;
    outcomes =
        sort_by
          (λ (left : CanonicalOutcome) right.
            locale_before outside.wire.unicode (side_text left.side) (side_text right.side))
          (map canonical_outcome market.outcomes);
  }

  unfoldable pub market_sort_key : CanonicalMarket → String
  unfolding period_text
  market_sort_key market =
      market.market_id ^^ "\0" ^^ period_text market.period ^^ "\0" ^^ market.line

  unfoldable pub fixture_market_fingerprint : FixtureMarketSnapshot → String
  unfolding canonical_market market_sort_key
  fixture_market_fingerprint snapshot = outside.digest (
      sort_by
        (λ left right.
          locale_before outside.wire.unicode (market_sort_key left) (market_sort_key right))
        (map canonical_market snapshot.markets))

  -- The number of the batch is drawn before the frame is sent.
  unfoldable pub send_fixture_market_snapshot : FixtureMarketSnapshot → Method Sink (Unit {0})
  unfolding fixture_market_fingerprint number_text
  send_fixture_market_snapshot snapshot s =
      let batch_id = s.stream.session_id ^^ ":" ^^ number_text (suc s.batch_counter) in
      let fingerprint = fixture_market_fingerprint snapshot in
      let start =
        outside.wire.event_start_at snapshot.source snapshot.event_start_at snapshot.observed_at in
      let fields = snapshot_fields start batch_id fingerprint snapshot in
      (send_frame (λ session seq. fixture_market_snapshot session seq fields)
          >> change (λ t. record t {
            latest_fixture_batches =
                set snapshot.fixture_id (record { batch_id = batch_id; fingerprint = fingerprint })
                  t.latest_fixture_batches;
          }))
        (record s { batch_counter = suc s.batch_counter })

  abbrev pub detector_selections : String → Cache → List OddsSelection
  detector_selections fixture_id cache =
      filter
        (λ selection. selection.fixture_id == fixture_id && is_detector_market selection.market_id)
        (values cache.latest_selections)

  unfoldable pub metadata_of : String → Cache → List OddsSelection → Option OddsSelection
  metadata_of fixture_id cache [] = get fixture_id cache.latest_fixture_metadata
  metadata_of fixture_id cache (selection ∷ selections) = some selection

  -- A fixture without selections and without metadata is skipped.
  unfoldable pub send_with_metadata :
      Identity → String → List OddsSelection → Option OddsSelection → Method Sink (Unit {0})
  unfolding send_fixture_market_snapshot
  send_with_metadata me observed_at selections none = pure tt
  send_with_metadata me observed_at selections (some metadata) = send_fixture_market_snapshot (
      fixture_market_snapshot_from_selections outside.wire.unicode outside.normalize_asian_line
        me.source metadata selections observed_at)

  -- The body of the loop over the fixtures
  unfoldable pub send_fixture : Identity → String → String → Method Sink (Unit {0})
  unfolding send_with_metadata metadata_of
  send_fixture me observed_at fixture_id s =
      let selections = detector_selections fixture_id s.cache in
      send_with_metadata me observed_at selections (metadata_of fixture_id s.cache selections) s

  unfoldable pub send_fixture_market_snapshots :
      Identity → String → List String → Method Sink (Unit {0})
  unfolding send_fixture
  send_fixture_market_snapshots me observed_at [] = pure tt
  send_fixture_market_snapshots me observed_at (fixture_id ∷ fixture_ids) =
      send_fixture me observed_at fixture_id
      >> send_fixture_market_snapshots me observed_at fixture_ids
