-- ===== src/Sink/Push/Answered.antt =====
-- The responses to the commands of bets keep the sink sound.
use surebet.Base.{refl, Option, none, some}
use surebet.Clock.{Clock}
use surebet.Sink.Requests.{LiveBetFrame, SimulateBetFrame}
use surebet.Sink.Live.{LiveBetHandler, LiveResponse}
use surebet.Sink.Replies.{
  Reply, silent, invalid, answered, SimulatedPhase, select_phase, place_phase,
}
use surebet.Sink.Simulated.{Handler, handle_simulated_select_odds, handle_simulated_place_bet}
use surebet.Sink.Stream.{bet_response, simulated_failure, simulated_response}
use surebet.Sink.Connection.{Identity, Turn, send_frame, ensure_connected}
use surebet.Sink.Push.Bets.{
  LiveCommand, session_view, with_session, send_live_response, receive_live_command,
  send_simulated_reply, receive_simulated_select_odds, receive_simulated_place_bet,
}
use surebet.Sink.Push.Numbered.{number_of, session_of, Preserves}
use surebet.Sink.Push.Sound.{IsSound, then-IsSound, send_frame-IsSound, ensure_connected-IsSound}

module _ (me : Identity) (turn : Turn) where
  send_live_response-IsSound :
      (response : Option LiveResponse) → Preserves IsSound (send_live_response me turn response)
  unfolding send_live_response number_of session_of
  send_live_response-IsSound none = λ s v. v
  send_live_response-IsSound (some response) =
      then-IsSound (ensure_connected me turn)
        (send_frame (λ session seq. bet_response session seq me.account_id me.source response))
        (ensure_connected-IsSound me turn) (send_frame-IsSound _ (λ session seq. (refl, refl)))

  pub receive_live_command-IsSound :
      (command : LiveCommand) (handler : Option (LiveBetHandler (Unit {0}))) (clock : Clock)
      (frame : LiveBetFrame)
      → Preserves IsSound (receive_live_command me turn command handler clock frame)
  unfolding receive_live_command
  receive_live_command-IsSound command handler clock frame s v = send_live_response-IsSound _ s v

  send_simulated_reply-IsSound :
      (phase : SimulatedPhase) (reply : Reply)
      → Preserves IsSound (send_simulated_reply me turn phase reply)
  unfolding send_simulated_reply number_of session_of
  send_simulated_reply-IsSound phase silent = λ s v. v
  send_simulated_reply-IsSound phase (invalid reply) =
      then-IsSound (ensure_connected me turn)
        (send_frame (λ session seq. simulated_failure session seq phase reply))
        (ensure_connected-IsSound me turn) (send_frame-IsSound _ (λ session seq. (refl, refl)))
  send_simulated_reply-IsSound phase (answered command key response) =
      then-IsSound (ensure_connected me turn)
        (send_frame (λ session seq. simulated_response session seq phase command key response))
        (ensure_connected-IsSound me turn) (send_frame-IsSound _ (λ session seq. (refl, refl)))

  pub receive_simulated_select_odds-IsSound :
      (clock : Clock) (frame : SimulateBetFrame)
      → Preserves IsSound (receive_simulated_select_odds me turn clock frame)
  unfolding receive_simulated_select_odds
  receive_simulated_select_odds-IsSound clock frame s v =
      let (reply, t) = handle_simulated_select_odds clock frame (session_view s) in
      send_simulated_reply-IsSound select_phase reply (with_session t s) v

  pub receive_simulated_place_bet-IsSound :
      (handler : Handler (Unit {0})) (clock : Clock) (frame : SimulateBetFrame)
      → Preserves IsSound (receive_simulated_place_bet me turn handler clock frame)
  unfolding receive_simulated_place_bet
  receive_simulated_place_bet-IsSound handler clock frame s v =
      let (reply, t) = handle_simulated_place_bet handler clock frame (session_view s) in
      send_simulated_reply-IsSound place_phase reply (with_session t s) v
