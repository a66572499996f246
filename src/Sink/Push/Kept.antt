-- ===== src/Sink/Push/Kept.antt =====
-- Every operation of the stream sink keeps it sound.
use surebet.JsMap.{keys, values}
use surebet.JsMap.SetOf.{set_of}
use surebet.Contracts.Bets.{QuoteConfirmationRequest, QuoteConfirmationResult}
use surebet.Sink.Payloads.{ObservedFields}
use surebet.Base.{not, map, length, String, refl, Option, none, some, List, [], ◌∷◌}
use surebet.Base.Outcome.{Outcome, Method, ◌>>=◌, ◌>>◌}
use surebet.Contracts.Odds.{
  OddsDelta, DeltaOp, OddsSnapshot, FixtureMarketSnapshot, CollectorHeartbeat,
  AccountBalanceObservation, upsert, remove, CollectorSource, OddsSelection,
}
use surebet.Sink.Stream.{batches, Frame, QuoteItem, send_bootstrap_snapshot}
use surebet.Sink.Connection.{
  Identity, Turn, FixtureBatch, Sink, on_stream, send_frame, ensure_connected,
}
use surebet.Sink.Cache.{replace_latest_snapshot, apply_latest_deltas}
use surebet.Sink.FixtureFrames.{
  Outside, send_fixture_market_snapshot, send_fixture_market_snapshots,
}
use surebet.Sink.Push.{
  replay_bootstrap, replay_from, delta_step, replay_latest_bootstrap_if_needed, push_bootstrap,
  send_removals, send_removal, send_upserts, later_observed, push_deltas, push_delta,
  push_fixture_market_snapshot, heartbeat_frame, same_source, send_observed, observe_batches,
  observed_items, observe_fixture_market_batches, send_balance, push_account_balance, confirm,
  send_confirmation,
}
use surebet.Sink.Push.Numbered.{number_of, session_of, Preserves, >>=-Preserves}
use surebet.Sink.Push.Sound.{
  IsSound, if-Sound, then-IsSound, bootstrap-IsSound, send_frame-IsSound, ensure_connected-IsSound,
  send_snapshot-IsSound, send_fixtures-IsSound, synced-IsSound, boot_markets-Leaves,
  after_boot_markets-Leaves,
}

module _ (outside : Outside) (me : Identity) where
  replay_bootstrap-IsSound :
      (turn : Turn) (bootstrap : OddsSnapshot)
      → Preserves IsSound (replay_bootstrap outside me turn bootstrap)
  unfolding replay_bootstrap
  replay_bootstrap-IsSound turn bootstrap s v =
      let held = record bootstrap { selections = values s.cache.latest_selections } in
      let boot = on_stream (send_bootstrap_snapshot outside.wire turn.snapshot_id held) in
      let markets =
        send_fixture_market_snapshots outside me bootstrap.collected_at
          (keys s.cache.latest_fixture_metadata) in
      synced-IsSound outside me (boot >> markets)
        (then-IsSound boot markets (bootstrap-IsSound outside turn.snapshot_id held)
          (send_fixtures-IsSound outside me bootstrap.collected_at _))
        (boot_markets-Leaves outside me turn.snapshot_id held bootstrap.collected_at _) s v

  replay_from-IsSound :
      (turn : Turn) (bootstrap : Option OddsSnapshot)
      → Preserves IsSound (replay_from outside me turn bootstrap)
  unfolding replay_from
  replay_from-IsSound turn none = λ s v. v
  replay_from-IsSound turn (some bootstrap) = replay_bootstrap-IsSound turn bootstrap

  replay-IsSound :
      (turn : Turn) → Preserves IsSound (replay_latest_bootstrap_if_needed outside me turn)
  unfolding replay_latest_bootstrap_if_needed
  replay-IsSound turn s v =
      if-Sound (not s.pending_resync) _ _ v (replay_from-IsSound turn s.cache.latest_bootstrap s v)

  pub push_bootstrap-IsSound :
      (turn : Turn) (snapshot : OddsSnapshot)
      → Preserves IsSound (push_bootstrap outside me turn snapshot)
  unfolding push_bootstrap
  push_bootstrap-IsSound turn snapshot s v =
      let connect = ensure_connected me turn in
      let boot = on_stream (send_bootstrap_snapshot outside.wire turn.snapshot_id snapshot) in
      let markets = send_fixture_market_snapshots outside me snapshot.collected_at (
        keys (
          set_of
            (map (λ (selection : OddsSelection). selection.fixture_id) snapshot.selections))) in
      synced-IsSound outside me (connect >> boot >> markets)
        (then-IsSound (connect >> boot) markets
          (then-IsSound connect boot (ensure_connected-IsSound me turn)
            (bootstrap-IsSound outside turn.snapshot_id snapshot))
          (send_fixtures-IsSound outside me snapshot.collected_at _))
        (after_boot_markets-Leaves outside me connect turn.snapshot_id snapshot
          snapshot.collected_at _)
        (record s { cache = replace_latest_snapshot snapshot s.cache }) v

  delta_step-IsSound :
      (op : DeltaOp) (delta : OddsDelta) (upserts : List QuoteItem)
      (rest : List QuoteItem → Method Sink (List QuoteItem))
      → ((items : List QuoteItem) → Preserves IsSound (rest items))
      → Preserves IsSound (delta_step outside op delta upserts rest)
  unfolding delta_step send_removal number_of session_of
  delta_step-IsSound remove delta upserts rest h =
      >>=-Preserves IsSound (send_removal outside delta) (λ _. rest upserts)
        (send_frame-IsSound _ (λ session seq. (refl, refl))) (λ _. h upserts)
  delta_step-IsSound upsert delta upserts rest h = h _

  send_removals-IsSound :
      (deltas : List OddsDelta) (upserts : List QuoteItem)
      → Preserves IsSound (send_removals outside deltas upserts)
  unfolding send_removals
  send_removals-IsSound [] upserts = λ s v. v
  send_removals-IsSound (delta ∷ deltas) upserts =
      delta_step-IsSound delta.op delta upserts (send_removals outside deltas)
        (send_removals-IsSound deltas)

  send_upserts-IsSound :
      (source : CollectorSource) (groups : List (List QuoteItem))
      → Preserves IsSound (send_upserts outside source groups)
  unfolding send_upserts number_of session_of
  send_upserts-IsSound source [] = λ s v. v
  send_upserts-IsSound source (g ∷ groups) =
      then-IsSound (send_frame (λ session seq. Frame.quote_delta_batch session seq source g))
        (send_upserts outside source groups) (send_frame-IsSound _ (λ session seq. (refl, refl)))
        (send_upserts-IsSound source groups)

  push_deltas-IsSound :
      (turn : Turn) (first : OddsDelta) (rest : List OddsDelta)
      → Preserves IsSound (push_deltas outside me turn first rest)
  unfolding push_deltas
  push_deltas-IsSound turn first rest s v =
      let deltas = first ∷ rest in
      let connect = ensure_connected me turn in
      let replay = replay_latest_bootstrap_if_needed outside me turn in
      let upserts_after = λ (upserts : List QuoteItem).
        send_upserts outside first.source (batches (length upserts) upserts) in
      let quotes = send_removals outside deltas [] >>= upserts_after in
      let markets =
        send_fixture_market_snapshots outside me (later_observed outside first.collected_at deltas)
          (keys (set_of (map (λ (delta : OddsDelta). delta.fixture_id) deltas))) in
      then-IsSound (connect >> replay >> quotes) markets
        (then-IsSound (connect >> replay) quotes
          (then-IsSound connect replay (ensure_connected-IsSound me turn) (replay-IsSound turn))
          (>>=-Preserves IsSound (send_removals outside deltas []) upserts_after
            (send_removals-IsSound deltas []) (λ upserts. send_upserts-IsSound first.source _)))
        (send_fixtures-IsSound outside me _ _)
        (record s { cache = apply_latest_deltas outside.date_parse deltas s.cache }) v

  pub push_delta-IsSound :
      (turn : Turn) (deltas : List OddsDelta)
      → Preserves IsSound (push_delta outside me turn deltas)
  unfolding push_delta
  push_delta-IsSound turn [] = λ s v. v
  push_delta-IsSound turn (first ∷ rest) = push_deltas-IsSound turn first rest

  connected-IsSound :
      (turn : Turn) (k : Method Sink (Unit {0}))
      → Preserves IsSound k
      → Preserves IsSound (ensure_connected me turn >> k)
  connected-IsSound turn k h =
      then-IsSound (ensure_connected me turn) k (ensure_connected-IsSound me turn) h

  replayed-IsSound :
      (turn : Turn) (k : Method Sink (Unit {0}))
      → Preserves IsSound k
      → Preserves IsSound
          (ensure_connected me turn >> replay_latest_bootstrap_if_needed outside me turn >> k)
  replayed-IsSound turn k h =
      then-IsSound (ensure_connected me turn >> replay_latest_bootstrap_if_needed outside me turn) k
        (connected-IsSound turn (replay_latest_bootstrap_if_needed outside me turn)
          (replay-IsSound turn))
        h

  pub heartbeat-IsSound :
      (turn : Turn) (payload : CollectorHeartbeat)
      → Preserves IsSound (heartbeat_frame outside me turn payload)
  unfolding heartbeat_frame number_of session_of
  heartbeat-IsSound turn payload =
      replayed-IsSound turn
        (send_frame (λ session seq. Frame.heartbeat session seq payload.sent_at))
        (send_frame-IsSound _ (λ session seq. (refl, refl)))

  pub push_snapshot-IsSound :
      (turn : Turn) (snapshot : FixtureMarketSnapshot)
      → Preserves IsSound (push_fixture_market_snapshot outside me turn snapshot)
  unfolding push_fixture_market_snapshot
  push_snapshot-IsSound turn snapshot =
      connected-IsSound turn (send_fixture_market_snapshot outside snapshot)
        (send_snapshot-IsSound outside me snapshot)

  send_observed-IsSound :
      (at : String) (items : List ObservedFields)
      → Preserves IsSound (send_observed outside me at items)
  unfolding send_observed number_of session_of
  send_observed-IsSound at [] = λ s v. v
  send_observed-IsSound at (item ∷ items) = send_frame-IsSound _ (λ session seq. (refl, refl))

  observe_batches-IsSound :
      (turn : Turn) (at : String) (found : List (String × FixtureBatch))
      → Preserves IsSound (observe_batches outside me turn at found)
  unfolding observe_batches
  observe_batches-IsSound turn at [] = λ s v. v
  observe_batches-IsSound turn at (batch ∷ found) =
      replayed-IsSound turn
        (λ s.
          send_observed outside me at
            (observed_items outside s.latest_fixture_batches (batch ∷ found)) s)
        (λ s v. send_observed-IsSound at _ s v)

  pub observe-IsSound :
      (turn : Turn) (ids : List String) (at : String)
      → Preserves IsSound (observe_fixture_market_batches outside me turn ids at)
  unfolding observe_fixture_market_batches
  observe-IsSound turn ids at s v = observe_batches-IsSound turn at _ s v

  send_balance-IsSound :
      (turn : Turn) (balance : AccountBalanceObservation)
      → Preserves IsSound (send_balance outside me turn balance)
  unfolding send_balance number_of session_of
  send_balance-IsSound turn balance =
      replayed-IsSound turn (send_frame _) (send_frame-IsSound _ (λ session seq. (refl, refl)))

  pub balance-IsSound :
      (turn : Turn) (balance : AccountBalanceObservation)
      → Preserves IsSound (push_account_balance outside me turn balance)
  unfolding push_account_balance
  balance-IsSound turn balance s v = if-Sound (not me.is_version_4) _ _ v (
      if-Sound (not (same_source outside balance.source me.source)) _ _ v
        (if-Sound _ _ _ v (send_balance-IsSound turn balance s v)))

  pub confirm-IsSound :
      (turn : Turn) (now : String)
      (handler : Option (QuoteConfirmationRequest → Outcome QuoteConfirmationResult))
      (request : Option QuoteConfirmationRequest)
      → Preserves IsSound (confirm outside me turn now handler request)
  unfolding confirm send_confirmation number_of session_of
  confirm-IsSound turn now handler none = λ s v. v
  confirm-IsSound turn now handler (some request) =
      connected-IsSound turn (send_frame _) (send_frame-IsSound _ (λ session seq. (refl, refl)))
