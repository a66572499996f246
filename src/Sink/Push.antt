-- ===== src/Sink/Push.antt =====
-- What the stream sink sends by itself, over a connection that it opens when it needs one: pushBootstrap,
-- pushDelta, pushFixtureMarketSnapshot, observeFixtureMarketBatches, heartbeat, pushAccountBalance,
-- handleQuoteConfirmation, replayLatestBootstrapIfNeeded, and the frames that ask for a resync, of
-- collector/shared/src/backend/backend-collector-stream-sink.ts. The queue runs one operation after
-- the other, each to its end.
pub mod Numbered
pub mod Synced
pub mod Sound
pub mod Bets
pub mod Answered
pub mod Kept
pub mod Operations
mod Tests
use surebet.Base.{
  ℕ, suc, ◌+◌, String, Bool, true, false, not, ◌&&◌, ◌||◌, Option, none, some, List, [], ◌∷◌, ◌++◌,
  map, filter, flat_map, length, or_else, sort_by, ◌==◌, is_some, if◌then◌else◌,
}
use mathlib.Core.Option
use surebet.Base.Outcome.{Outcome, returned, threw, Method, ◌>>=◌, ◌>>◌, pure, lift}
use surebet.Base.Text.{◌^^◌}
use surebet.Base.Decimal.{number_text}
use surebet.JsMap.{JsMap, empty, get, set, keys, values}
use surebet.JsMap.SetOf.{set_of}
use surebet.Number.{Number, zero_number, is_finite, number_lt}
use surebet.Unicode.{Unicode, locale_before}
use surebet.Contracts.Odds.{
  CollectorSource, OddsSelection, OddsSnapshot, OddsDelta, DeltaOp, upsert, remove, Side, home,
  away, over, under, OddsFormat, Period, full_time, first_half, MarketStatus, FixtureMarketOutcome,
  FixtureMarket, FixtureMarketSnapshot, CollectorHeartbeat, AccountBalanceObservation, MatchState,
  unknown, bookmaker_eq, lobby_eq,
}
use surebet.Contracts.Bets.{QuoteConfirmationRequest, QuoteConfirmationResult}
use surebet.Sink.Cache.{
  Cache, empty_cache, replace_latest_snapshot, apply_latest_deltas, selection_from_delta,
}
use surebet.Sink.Requests.{Field, FrameSource}
use surebet.Sink.Commands.{ConfirmQuoteFrame, Conversions, parse_quote_confirmation_request}
use surebet.Sink.Replies.{
  PreparedSimulatedSelection, ConfirmedSelection, serialize_confirmed_selection,
}
use surebet.Sink.Live.{is_text, is_four, source_is, live_capabilities}
use surebet.Sink.Markets.{is_detector_market, fixture_market_snapshot_from_selections}
use surebet.Sink.Payloads.{MarketSnapshotFields, ObservedFields, BalanceFields, snapshot_fields}
use surebet.Sink.Stream.{
  Wire, RawIds, QuoteItem, Frame, hello, quote_remove, quote_delta_batch, fixture_market_snapshot,
  fixture_observed_batch, heartbeat, account_balance, confirm_quote_response, Stream,
  serialize_markers, send, batches, send_bootstrap_snapshot,
}
use surebet.Sink.Connection.{
  Identity, Turn, Sink, FixtureBatch, on_stream, change, send_frame, closed, ensure_connected,
}
use surebet.Sink.FixtureFrames.{
  Outside, send_fixture_market_snapshot, send_fixture_market_snapshots,
}

module _ (outside : Outside) where
  -- The end of a replay or of a bootstrap
  unfoldable pub synced : Method Sink (Unit {0})
  synced = change (λ s. record s { pending_resync = false })

  unfoldable pub replay_bootstrap : Identity → Turn → OddsSnapshot → Method Sink (Unit {0})
  unfolding send_fixture_market_snapshots synced
  replay_bootstrap me turn bootstrap s =
      (on_stream (
            send_bootstrap_snapshot outside.wire turn.snapshot_id
              (record bootstrap { selections = values s.cache.latest_selections }))
          >> send_fixture_market_snapshots outside me bootstrap.collected_at
              (keys s.cache.latest_fixture_metadata)
          >> synced)
        s

  unfoldable pub replay_from : Identity → Turn → Option OddsSnapshot → Method Sink (Unit {0})
  unfolding replay_bootstrap
  replay_from me turn none = pure tt
  replay_from me turn (some bootstrap) = replay_bootstrap me turn bootstrap

  unfoldable pub replay_latest_bootstrap_if_needed : Identity → Turn → Method Sink (Unit {0})
  unfolding replay_from
  replay_latest_bootstrap_if_needed me turn s =
      if not s.pending_resync
      then (returned tt, s)
      else replay_from me turn s.cache.latest_bootstrap s

  unfoldable pub push_bootstrap : Identity → Turn → OddsSnapshot → Method Sink (Unit {0})
  unfolding ensure_connected send_fixture_market_snapshots synced
  push_bootstrap me turn snapshot s =
      (ensure_connected me turn
          >> on_stream (send_bootstrap_snapshot outside.wire turn.snapshot_id snapshot)
          >> send_fixture_market_snapshots outside me snapshot.collected_at (
              keys (
                set_of
                  (map (λ (selection : OddsSelection). selection.fixture_id) snapshot.selections)))
          >> synced)
        (record s { cache = replace_latest_snapshot snapshot s.cache })

  unfoldable pub raw_ids_of : OddsDelta → RawIds
  raw_ids_of delta = record {
    fixture_id = delta.fixture_id;
    market_id = delta.market_id;
    outcome_id = delta.outcome_id;
    provider_ref = or_else delta.provider_ref "";
  }

  unfoldable pub delta_item : OddsDelta → QuoteItem
  unfolding raw_ids_of
  delta_item delta = record {
    occurred_at = delta.collected_at;
    raw_ids = raw_ids_of delta;
    markers = serialize_markers outside.wire (selection_from_delta delta);
    quote = record {
      sport = or_else delta.sport "";
      home_team = or_else delta.home_team "";
      away_team = or_else delta.away_team "";
      league_name = or_else delta.league_name "";
      match_state = or_else delta.match_state unknown;
      event_start_at =
          outside.wire.event_start_at delta.source delta.event_start_at delta.collected_at;
      outcome_name = delta.outcome_name;
      odds = delta.odds;
      provider_ref = or_else delta.provider_ref "";
      available_stake = delta.available_stake;
      suspended = delta.suspended;
    };
  }

  unfoldable pub send_removal : OddsDelta → Method Sink (Unit {0})
  unfolding raw_ids_of
  send_removal delta = send_frame (λ session seq.
      quote_remove session seq delta.collected_at delta.source (raw_ids_of delta)
        (serialize_markers outside.wire (selection_from_delta delta)))

  -- One delta in the first loop of pushDelta, with what the loop does after it
  unfoldable pub delta_step :
      DeltaOp
      → OddsDelta
      → List QuoteItem
      → (List QuoteItem → Method Sink (List QuoteItem))
      → Method Sink (List QuoteItem)
  unfolding delta_item send_removal
  delta_step remove delta upserts rest = send_removal delta >>= λ _. rest upserts
  delta_step upsert delta upserts rest = rest (upserts ++ delta_item delta ∷ [])

  -- The first loop of pushDelta: removals are sent one by one, and upserts collected.
  unfoldable pub send_removals : List OddsDelta → List QuoteItem → Method Sink (List QuoteItem)
  unfolding delta_step
  send_removals [] upserts = pure upserts
  send_removals (delta ∷ deltas) upserts = delta_step delta.op delta upserts (send_removals deltas)

  unfoldable pub send_upserts : CollectorSource → List (List QuoteItem) → Method Sink (Unit {0})
  send_upserts source [] = pure tt
  send_upserts source (batch ∷ rest) =
      send_frame (λ session seq. quote_delta_batch session seq source batch)
      >> send_upserts source rest

  -- The body of the loop of `latestDeltaObservedAt`
  unfoldable pub later_observed : String → List OddsDelta → String
  later_observed latest [] = latest
  later_observed latest (delta ∷ deltas) =
      later_observed
        (if number_lt (outside.date_parse latest) (outside.date_parse delta.collected_at)
          then delta.collected_at
          else latest)
        deltas

  -- Without deltas nothing is done; `first` is `deltas[0]`.
  unfoldable pub push_deltas : Identity → Turn → OddsDelta → List OddsDelta → Method Sink (Unit {0})
  unfolding ensure_connected replay_latest_bootstrap_if_needed send_removals send_upserts
      send_fixture_market_snapshots later_observed
  push_deltas me turn first rest s =
      let deltas = first ∷ rest in
      (ensure_connected me turn
          >> replay_latest_bootstrap_if_needed me turn
          >> (send_removals deltas [] >>= λ upserts.
              send_upserts first.source (batches (length upserts) upserts))
          >> send_fixture_market_snapshots outside me (later_observed first.collected_at deltas)
              (keys (set_of (map (λ (delta : OddsDelta). delta.fixture_id) deltas))))
        (record s { cache = apply_latest_deltas outside.date_parse deltas s.cache })

  unfoldable pub push_delta : Identity → Turn → List OddsDelta → Method Sink (Unit {0})
  unfolding push_deltas
  push_delta me turn [] = pure tt
  push_delta me turn (first ∷ rest) = push_deltas me turn first rest

  unfoldable pub push_fixture_market_snapshot :
      Identity → Turn → FixtureMarketSnapshot → Method Sink (Unit {0})
  unfolding ensure_connected send_fixture_market_snapshot
  push_fixture_market_snapshot me turn snapshot =
      ensure_connected me turn >> send_fixture_market_snapshot outside snapshot

  unfoldable pub heartbeat_frame : Identity → Turn → CollectorHeartbeat → Method Sink (Unit {0})
  unfolding ensure_connected replay_latest_bootstrap_if_needed
  heartbeat_frame me turn payload =
      ensure_connected me turn
      >> replay_latest_bootstrap_if_needed me turn
      >> send_frame (λ session seq. heartbeat session seq payload.sent_at)

  -- The batches of the fixtures, where there are any
  unfoldable pub known_batches : JsMap FixtureBatch → List String → List (String × FixtureBatch)
  known_batches latest [] = []
  known_batches latest (fixture_id ∷ fixture_ids) =
      let rest = known_batches latest fixture_ids in
      elim (get fixture_id latest) [ none ↦ rest | some batch ↦ (fixture_id, batch) ∷ rest ]

  -- The same object: every batch has an id of its own.
  unfoldable pub is_same_batch : FixtureBatch → Option FixtureBatch → Bool
  is_same_batch batch none = false
  is_same_batch batch (some current) = current.batch_id == batch.batch_id

  -- The batches that are still the latest
  unfoldable pub observed_items :
      JsMap FixtureBatch → List (String × FixtureBatch) → List ObservedFields
  unfolding is_same_batch
  observed_items latest [] = []
  observed_items latest ((fixture_id, batch) ∷ batches) =
      let rest = observed_items latest batches in
      if is_same_batch batch (get fixture_id latest)
      then record {
        fixture_id = fixture_id;
        batch_id = batch.batch_id;
        fingerprint = batch.fingerprint;
      }
        ∷ rest
      else rest

  unfoldable pub send_observed : Identity → String → List ObservedFields → Method Sink (Unit {0})
  send_observed me observed_at [] = pure tt
  send_observed me observed_at (item ∷ items) =
      send_frame
        (λ session seq. fixture_observed_batch session seq observed_at me.source (item ∷ items))

  unfoldable pub observe_batches :
      Identity → Turn → String → List (String × FixtureBatch) → Method Sink (Unit {0})
  unfolding ensure_connected replay_latest_bootstrap_if_needed observed_items send_observed
  observe_batches me turn observed_at [] = pure tt
  observe_batches me turn observed_at (batch ∷ batches) =
      ensure_connected me turn >> replay_latest_bootstrap_if_needed me turn >> λ s.
      send_observed me observed_at (observed_items s.latest_fixture_batches (batch ∷ batches)) s

  unfoldable pub observe_fixture_market_batches :
      Identity → Turn → List String → String → Method Sink (Unit {0})
  unfolding observe_batches known_batches
  observe_fixture_market_batches me turn fixture_ids observed_at s =
      observe_batches me turn observed_at
        (known_batches s.latest_fixture_batches (keys (set_of fixture_ids))) s

  unfoldable pub same_source : CollectorSource → CollectorSource → Bool
  same_source left right =
      left.collector_id == right.collector_id
      && bookmaker_eq left.bookmaker_id right.bookmaker_id
      && lobby_eq left.lobby_id right.lobby_id

  abbrev pub is_bad_amount : Number → Bool
  is_bad_amount amount = not (is_finite amount) || number_lt amount zero_number

  abbrev pub is_bad_optional_amount : Option Number → Bool
  is_bad_optional_amount none = false
  is_bad_optional_amount (some amount) = is_bad_amount amount

  unfoldable pub send_balance : Identity → Turn → AccountBalanceObservation → Method Sink (Unit {0})
  unfolding ensure_connected replay_latest_bootstrap_if_needed
  send_balance me turn balance =
      ensure_connected me turn
      >> replay_latest_bootstrap_if_needed me turn
      >> send_frame (λ session seq.
        account_balance session seq me.account_id balance.observed_at balance.source (record {
          amount = balance.amount;
          currency = balance.currency;
          amount_vnd = balance.amount_vnd;
          display_text = balance.display_text;
        }))

  unfoldable pub push_account_balance :
      Identity → Turn → AccountBalanceObservation → Method Sink (Unit {0})
  unfolding send_balance same_source
  push_account_balance me turn balance s =
      if not me.is_version_4
      then (returned tt, record s { balance_protocol_warning_emitted = true })
      else if not (same_source balance.source me.source)
      then (threw "account balance source does not match collector stream identity", s)
      else if is_bad_amount balance.amount || is_bad_optional_amount balance.amount_vnd
      then (threw "account balance amount must be finite and non-negative", s)
      else send_balance me turn balance s

  -- The answer of the handler, where there is one; `now` is the time before it was asked.
  unfoldable pub confirmation :
      String
      → Option (QuoteConfirmationRequest → Outcome QuoteConfirmationResult)
      → QuoteConfirmationRequest
      → QuoteConfirmationResult × String
  confirmation now none request = (
    record { observed_at = now; selection = none },
    "quote confirmation is not supported by this collector",
  )
  confirmation now (some handler) request = elim (handler request) [
    | returned result ↦ (result, "")
    | threw error ↦ (record { observed_at = now; selection = none }, error)
  ]

  unfoldable pub is_found : Option OddsSelection → Bool
  is_found none = false
  is_found (some selection) = not selection.suspended

  unfoldable pub send_confirmation :
      Identity
      → Turn
      → QuoteConfirmationRequest
      → QuoteConfirmationResult × String
      → Method Sink (Unit {0})
  unfolding ensure_connected is_found
  send_confirmation me turn request (result, error) =
      ensure_connected me turn
      >> send_frame (λ session seq.
        confirm_quote_response session seq request.request_id result.observed_at
          (is_found result.selection) error
          (Option.map serialize_confirmed_selection result.selection))

  unfoldable pub confirm :
      Identity
      → Turn
      → String
      → Option (QuoteConfirmationRequest → Outcome QuoteConfirmationResult)
      → Option QuoteConfirmationRequest
      → Method Sink (Unit {0})
  unfolding confirmation send_confirmation
  confirm me turn now handler none = pure tt
  confirm me turn now handler (some request) =
      send_confirmation me turn request (confirmation now handler request)

  unfoldable pub handle_quote_confirmation :
      Identity
      → Turn
      → Conversions
      → String
      → Option (QuoteConfirmationRequest → Outcome QuoteConfirmationResult)
      → ConfirmQuoteFrame
      → Method Sink (Unit {0})
  unfolding confirm
  handle_quote_confirmation me turn js now handler frame =
      confirm me turn now handler (parse_quote_confirmation_request js frame)

-- `resync_required`, and `error` with a code
unfoldable pub resync_required : Sink → Sink
resync_required s = record s { pending_resync = true }

unfoldable pub error_received : String → Sink → Sink
unfolding closed
error_received code s =
    if code == "stale_session" then closed s else record s { pending_resync = true }
