-- ===== src/Sink/Push/Operations.antt =====
-- What the stream sink keeps through any operations.
use surebet.Contracts.Bets.{QuoteConfirmationRequest, QuoteConfirmationResult}
use surebet.Sink.Commands.{ConfirmQuoteFrame, Conversions}
use surebet.Base.{String, Option, List, [], ◌∷◌}
use surebet.Base.Outcome.{Outcome}
use surebet.Contracts.Odds.{
  OddsDelta, OddsSnapshot, FixtureMarketSnapshot, CollectorHeartbeat, AccountBalanceObservation,
}
use surebet.Sink.Connection.{Identity, Turn, Sink, closed}
use surebet.Sink.FixtureFrames.{Outside}
use surebet.Sink.Push.{
  push_bootstrap, push_delta, push_fixture_market_snapshot, heartbeat_frame,
  observe_fixture_market_batches, push_account_balance, handle_quote_confirmation, error_received,
  resync_required,
}
use surebet.Clock.{Clock}
use surebet.Sink.Requests.{LiveBetFrame, SimulateBetFrame}
use surebet.Sink.Live.{LiveBetHandler}
use surebet.Sink.Simulated.{Handler}
use surebet.Sink.Push.Bets.{
  LiveCommand, receive_live_command, receive_simulated_select_odds, receive_simulated_place_bet,
}

-- What the sink is asked to do, and what it hears: commands of live and of simulated bets, with the
-- bookmaker and the clock that each meets, `resync_required`, an `error`, the end of the socket. A
-- quote confirmation has the time before its handler is asked.
pub data Operation : Type 0 where
  bootstrap : Turn → OddsSnapshot → Operation
  deltas : Turn → List OddsDelta → Operation
  market_snapshot : Turn → FixtureMarketSnapshot → Operation
  observed : Turn → List String → String → Operation
  beat : Turn → CollectorHeartbeat → Operation
  balance : Turn → AccountBalanceObservation → Operation
  quote_confirmation :
      Turn
      → Conversions
      → String
      → Option (QuoteConfirmationRequest → Outcome QuoteConfirmationResult)
      → ConfirmQuoteFrame
      → Operation
  live_command :
      Turn → LiveCommand → Option (LiveBetHandler (Unit {0})) → Clock → LiveBetFrame → Operation
  simulated_select : Turn → Clock → SimulateBetFrame → Operation
  simulated_place : Turn → Handler (Unit {0}) → Clock → SimulateBetFrame → Operation
  resync : Operation
  error_frame : String → Operation
  lost : Operation

module _ (outside : Outside) (me : Identity) where
  unfoldable pub perform : Operation → Sink → Sink
  unfolding push_bootstrap push_delta push_fixture_market_snapshot observe_fixture_market_batches
      heartbeat_frame push_account_balance handle_quote_confirmation receive_live_command
      receive_simulated_select_odds receive_simulated_place_bet resync_required error_received
      closed
  perform (bootstrap turn snapshot) s = (push_bootstrap outside me turn snapshot s).1
  perform (deltas turn l) s = (push_delta outside me turn l s).1
  perform (market_snapshot turn snapshot) s =
      (push_fixture_market_snapshot outside me turn snapshot s).1
  perform (observed turn ids at) s = (observe_fixture_market_batches outside me turn ids at s).1
  perform (beat turn payload) s = (heartbeat_frame outside me turn payload s).1
  perform (balance turn b) s = (push_account_balance outside me turn b s).1
  perform (quote_confirmation turn js now handler frame) s =
      (handle_quote_confirmation outside me turn js now handler frame s).1
  perform (live_command turn command handler clock frame) s =
      (receive_live_command me turn command handler clock frame s).1
  perform (simulated_select turn clock frame) s =
      (receive_simulated_select_odds me turn clock frame s).1
  perform (simulated_place turn handler clock frame) s =
      (receive_simulated_place_bet me turn handler clock frame s).1
  perform resync s = resync_required s
  perform (error_frame code) s = error_received code s
  perform lost s = closed s

  unfoldable pub run_operations : List Operation → Sink → Sink
  unfolding perform
  run_operations [] s = s
  run_operations (operation ∷ operations) s = run_operations operations (perform operation s)
