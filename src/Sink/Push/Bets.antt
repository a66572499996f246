-- ===== src/Sink/Push/Bets.antt =====
-- The commands of bets that the backend sends over the stream, up to their responses on the same
-- connection: sendLiveResponse, sendSimulatedResponse and sendInvalidSimulatedResponse after the
-- handlers of Sink.Live and Sink.Simulated
-- (collector/shared/src/backend/backend-collector-stream-sink.ts). The bookmaker is given with each
-- command, as what it answers to it.
use surebet.Base.{Option, none, some}
use surebet.Base.Outcome.{Method, ◌>>◌, pure}
use surebet.Clock.{Clock}
use surebet.Sink.Requests.{LiveBetFrame, SimulateBetFrame}
use surebet.Sink.Live.{
  Target, LiveBetHandler, LiveResponse, handle_live_prepare, handle_live_commit, handle_live_cancel,
  handle_live_reconcile,
}
use surebet.Sink.Replies.{
  Reply, silent, invalid, answered, SimulatedPhase, select_phase, place_phase,
}
use surebet.Sink.Simulated.{
  Session, Handler, handle_simulated_select_odds, handle_simulated_place_bet,
}
use surebet.Sink.Stream.{bet_response, simulated_failure, simulated_response}
use surebet.Sink.Connection.{Identity, Turn, Sink, send_frame, ensure_connected}

pub data LiveCommand : Type 0 where
  prepare_bet commit_bet cancel_prepared_bet reconcile_bet : LiveCommand

abbrev pub target_of : Identity → Sink → Target
target_of me s = record {
  is_version_4 = me.is_version_4;
  session_id = s.stream.session_id;
  account_id = me.account_id;
  source = me.source;
}

-- The handler of the command
unfoldable pub live_response :
    LiveCommand
    → Target
    → Option (LiveBetHandler (Unit {0}))
    → Clock
    → LiveBetFrame
    → Option LiveResponse
live_response prepare_bet target handler clock frame =
    (handle_live_prepare target handler clock frame tt).0
live_response commit_bet target handler clock frame =
    (handle_live_commit target handler clock frame tt).0
live_response cancel_prepared_bet target handler clock frame =
    (handle_live_cancel target handler clock frame tt).0
live_response reconcile_bet target handler clock frame =
    (handle_live_reconcile target handler clock frame tt).0

unfoldable pub send_live_response : Identity → Turn → Option LiveResponse → Method Sink (Unit {0})
unfolding ensure_connected
send_live_response me turn none = pure tt
send_live_response me turn (some response) =
    ensure_connected me turn
    >> send_frame (λ session seq. bet_response session seq me.account_id me.source response)

unfoldable pub receive_live_command :
    Identity
    → Turn
    → LiveCommand
    → Option (LiveBetHandler (Unit {0}))
    → Clock
    → LiveBetFrame
    → Method Sink (Unit {0})
unfolding live_response send_live_response
receive_live_command me turn command handler clock frame s =
    send_live_response me turn (live_response command (target_of me s) handler clock frame) s

-- What the simulated handlers see of the sink
abbrev pub session_view : Sink → Session (Unit {0})
session_view s = record {
  session_id = s.stream.session_id;
  latest_selections = s.cache.latest_selections;
  latest_selection_observed_at = s.cache.latest_selection_observed_at;
  prepared_simulated_selections = s.prepared;
  simulated_placement_results = s.simulated_placement_results;
  handler_state = tt;
}

-- What they leave
abbrev pub with_session : Session (Unit {0}) → Sink → Sink
with_session t s = record s {
  prepared = t.prepared_simulated_selections;
  simulated_placement_results = t.simulated_placement_results;
}

unfoldable pub send_simulated_reply :
    Identity → Turn → SimulatedPhase → Reply → Method Sink (Unit {0})
unfolding ensure_connected
send_simulated_reply me turn phase silent = pure tt
send_simulated_reply me turn phase (invalid reply) =
    ensure_connected me turn
    >> send_frame (λ session seq. simulated_failure session seq phase reply)
send_simulated_reply me turn phase (answered command key response) =
    ensure_connected me turn
    >> send_frame (λ session seq. simulated_response session seq phase command key response)

unfoldable pub receive_simulated_select_odds :
    Identity → Turn → Clock → SimulateBetFrame → Method Sink (Unit {0})
unfolding send_simulated_reply
receive_simulated_select_odds me turn clock frame s =
    let (reply, t) = handle_simulated_select_odds clock frame (session_view s) in
    send_simulated_reply me turn select_phase reply (with_session t s)

unfoldable pub receive_simulated_place_bet :
    Identity → Turn → Handler (Unit {0}) → Clock → SimulateBetFrame → Method Sink (Unit {0})
unfolding send_simulated_reply
receive_simulated_place_bet me turn handler clock frame s =
    let (reply, t) = handle_simulated_place_bet handler clock frame (session_view s) in
    send_simulated_reply me turn place_phase reply (with_session t s)
