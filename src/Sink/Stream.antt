-- ===== src/Sink/Stream.antt =====
-- The numbered frames of a connection: `sendFrame`, `nextSeq` and
-- `sendBootstrapSnapshot` of collector/shared/src/backend/backend-collector-stream-sink.ts.
-- JavaScript's Unicode functions are a parameter, and so is the normalized start of an event.
pub mod Bootstrap
mod Tests
use surebet.Base.{
  ℕ, zero, suc, ◌+◌, String, Bool, true, false, not, ◌&&◌, Option, none, some, List, [], ◌∷◌, ◌++◌,
  map, ◌==◌, length, take, drop, or_else, if◌then◌else◌,
}
use surebet.Base.Outcome.{Outcome, returned, threw, Method, ◌>>=◌, ◌>>◌, pure}
use surebet.Base.Text.{◌^^◌, truthy}
use surebet.Number.{Number}
use surebet.Sink.Payloads.{MarketSnapshotFields, ObservedFields, BalanceFields}
use surebet.Contracts.Bets.{SimulatedBetCommand}
use surebet.Sink.Live.{LiveResponse}
use surebet.Sink.Replies.{ConfirmedSelection, SimulatedPhase, InvalidReply, Response}
use surebet.Unicode.{Unicode, slug_text}
use surebet.Contracts.Odds.{CollectorSource, MatchState, unknown, OddsSelection, OddsSnapshot}

-- What the frames take from elsewhere: Unicode, and `normalizeSourceEventStartAt` of a source, a
-- start and a time of collection.
pub record Wire : Type 0 where
  pub unicode : Unicode
  pub event_start_at : CollectorSource → Option String → String → String

pub record RawIds : Type 0 where
  pub fixture_id : String
  pub market_id : String
  pub outcome_id : String
  pub provider_ref : String

pub record Markers : Type 0 where
  pub fixture_marker : String
  pub market_marker : String
  pub outcome_marker : String

pub record Quote : Type 0 where
  pub sport : String
  pub home_team : String
  pub away_team : String
  pub league_name : String
  pub match_state : MatchState
  pub event_start_at : String
  pub outcome_name : String
  pub odds : Number
  pub provider_ref : String
  pub available_stake : Number
  pub suspended : Bool

pub record QuoteItem : Type 0 where
  pub occurred_at : String
  pub raw_ids : RawIds
  pub markers : Markers
  pub quote : Quote

-- The frames that the sink sends by itself; each but `hello` carries its session and its number.
pub data Frame : Type 0 where
  -- protocol version 4, source, account_id, capabilities, started_at
  hello : Bool → String → CollectorSource → Option String → Option (List String) → String → Frame
  -- snapshot_id, sent_at
  snapshot_begin : String → ℕ → String → String → Frame
  -- snapshot_id, source, items
  quote_upsert_batch : String → ℕ → String → CollectorSource → List QuoteItem → Frame
  -- snapshot_id, sent_at, expected_count
  snapshot_commit : String → ℕ → String → String → ℕ → Frame
  -- occurred_at, source, raw_ids, markers
  quote_remove : String → ℕ → String → CollectorSource → RawIds → Markers → Frame
  -- source, items, without a snapshot_id
  quote_delta_batch : String → ℕ → CollectorSource → List QuoteItem → Frame
  fixture_market_snapshot : String → ℕ → MarketSnapshotFields → Frame
  -- observed_at, source, items
  fixture_observed_batch : String → ℕ → String → CollectorSource → List ObservedFields → Frame
  -- sent_at
  heartbeat : String → ℕ → String → Frame
  -- account_id, observed_at, source, balance
  account_balance : String → ℕ → String → String → CollectorSource → BalanceFields → Frame
  -- request_id, observed_at, found, error, selection
  confirm_quote_response :
      String → ℕ → String → String → Bool → String → Option ConfirmedSelection → Frame
  -- account_id, source, and the rest of a response to a live bet command
  bet_response : String → ℕ → String → CollectorSource → LiveResponse → Frame
  -- a simulated command that did not parse
  simulated_failure : String → ℕ → SimulatedPhase → InvalidReply → Frame
  -- the command, its idempotency_key, and the response
  simulated_response :
      String → ℕ → SimulatedPhase → SimulatedBetCommand → Option String → Response → Frame

-- The fields of the sink that sending uses, and what the socket was given so far.
pub record Stream : Type 0 where
  pub session_id : String
  pub seq : ℕ
  pub is_open : Bool
  pub sent : List Frame

-- `fixtureMarkerOf`
pub fixture_marker_of : Wire → Option String → Option String → String → String
fixture_marker_of wire home_team away_team fixture_id =
    if truthy (slug_text wire.unicode (or_else home_team ""))
      && truthy (slug_text wire.unicode (or_else away_team ""))
    then slug_text wire.unicode (or_else home_team "")
      ^^ "|"
      ^^ slug_text wire.unicode (or_else away_team "")
    else slug_text wire.unicode fixture_id

pub serialize_markers : Wire → OddsSelection → Markers
serialize_markers wire s = record {
  fixture_marker = fixture_marker_of wire s.home_team s.away_team s.fixture_id;
  market_marker = slug_text wire.unicode s.market_id;
  outcome_marker = slug_text wire.unicode s.outcome_name;
}

-- One item of a bootstrap.
pub quote_item : Wire → OddsSnapshot → OddsSelection → QuoteItem
quote_item wire snapshot s = record {
  occurred_at = snapshot.collected_at;
  raw_ids = record {
    fixture_id = s.fixture_id;
    market_id = s.market_id;
    outcome_id = s.outcome_id;
    provider_ref = or_else s.provider_ref "";
  };
  markers = serialize_markers wire s;
  quote = record {
    sport = or_else s.sport "";
    home_team = or_else s.home_team "";
    away_team = or_else s.away_team "";
    league_name = or_else s.league_name "";
    match_state = or_else s.match_state unknown;
    event_start_at = wire.event_start_at snapshot.source s.event_start_at snapshot.collected_at;
    outcome_name = s.outcome_name;
    odds = s.odds;
    provider_ref = or_else s.provider_ref "";
    available_stake = s.available_stake;
    suspended = s.suspended;
  };
}

-- The number is taken before the socket is looked at.
unfoldable pub send : (String → ℕ → Frame) → Method Stream (Unit {0})
send frame s =
    if s.is_open
    then (
      returned tt,
      record s { seq = s.seq + 1; sent = s.sent ++ frame s.session_id (s.seq + 1) ∷ [] },
    )
    else (threw "collector stream socket is not open", record s { seq = s.seq + 1 })

-- The slices of 200, on fuel: a list needs no more than its length.
unfoldable pub batches {ℓ} : {A : Type ℓ} → ℕ → List A → List (List A)
batches zero items = []
batches (suc fuel) [] = []
batches (suc fuel) (x ∷ items) = take 200 (x ∷ items) ∷ batches fuel (drop 200 (x ∷ items))

unfoldable pub send_batches :
    String → CollectorSource → List (List QuoteItem) → Method Stream (Unit {0})
send_batches snapshot_id source [] = pure tt
send_batches snapshot_id source (batch ∷ rest) =
    send (λ session seq. quote_upsert_batch session seq snapshot_id source batch)
    >> send_batches snapshot_id source rest

unfoldable pub send_bootstrap_snapshot : Wire → String → OddsSnapshot → Method Stream (Unit {0})
send_bootstrap_snapshot wire snapshot_id snapshot =
    let items = map (quote_item wire snapshot) snapshot.selections in
    send (λ session seq. snapshot_begin session seq snapshot_id snapshot.collected_at)
    >> send_batches snapshot_id snapshot.source (batches (length items) items)
    >> send (λ session seq.
      snapshot_commit session seq snapshot_id snapshot.collected_at (length snapshot.selections))
