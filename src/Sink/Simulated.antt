-- ===== src/Sink/Simulated.antt =====
-- The two phases of a simulated bet on the stream: `handleSimulatedSelectOdds` and
-- `handleSimulatedPlaceBet` of collector/shared/src/backend/backend-collector-stream-sink.ts. A
-- handler runs to its reply before the next one starts; what it would send is its result.
pub mod Place
pub mod Phases
use surebet.Base.{
  String, Bool, true, false, not, ◌&&◌, ◌||◌, Option, none, some, ◌==◌, or_else, if◌then◌else◌,
}
use surebet.Base.Int.{pos, negsuc}
use surebet.Base.Outcome.{Outcome, returned, threw, Method}
use surebet.Base.Text.{◌^^◌, trim, falsy}
use surebet.Clock.{Clock}
pub use surebet.Sink.Replies.{
  PreparedSimulatedSelection, ConfirmedSelection, serialize_confirmed_selection, Response, selected,
  unavailable, placed, rejected, failed, CachedSimulatedPlacement, InvalidReply, Reply, silent,
  invalid, answered,
}
use surebet.JsMap.{JsMap, get, delete}
use surebet.JsMap.Bounded.{set_bounded_map}
use surebet.Number.{
  Number, fin, whole, zero_number, is_finite, number_le, number_sub, number_abs, json_number_eq,
}
use surebet.Doubles.{odds_differ, odds_within}
use surebet.Contracts.Odds.{OddsSelection, MatchState, unknown, OddsFormat}
use surebet.Contracts.Bets.{
  Sequence, SimulatedBetCommand, SimulatedPlaceBetRequest, SimulatedPlaceBetResult, odds_changed,
}
use surebet.SimulatedBets.{Fingerprint, fingerprint_eq, sequence_eq}
use surebet.Sink.Cache.{selection_cache_key}
use surebet.Sink.Requests.{Field, text, number, SimulateBetFrame, clean_text}
use surebet.Sink.Commands.{
  ParsedSimulatedBetCommand, ParsedSimulatedPlaceBetRequest, parse_simulated_bet_command,
  parse_simulated_place_bet_request,
}

-- The fields of the sink that the handlers use; `H` is the state of the handler of placements.
pub record Session (H : Type 0) : Type 0 where
  pub session_id : String
  pub latest_selections : JsMap OddsSelection
  pub latest_selection_observed_at : JsMap String
  pub prepared_simulated_selections : JsMap PreparedSimulatedSelection
  pub simulated_placement_results : JsMap CachedSimulatedPlacement
  pub handler_state : H

-- `SimulatedPlaceBetHandler`, if one is set
abbrev pub Handler : Type 0 → Type 0
Handler H = Option (SimulatedPlaceBetRequest → Method H SimulatedPlaceBetResult)

-- `simulatedLegKey`
unfoldable pub simulated_leg_key : SimulatedBetCommand → String
simulated_leg_key c = c.action_id ^^ "\0" ^^ c.leg_id

abbrev pub command_key : SimulatedBetCommand → String
command_key c = selection_cache_key c.fixture_id c.market_id c.outcome_id

unfoldable pub same_prepared_selection : PreparedSimulatedSelection → SimulatedBetCommand → Bool
same_prepared_selection p c =
    p.action_id == c.action_id
    && p.opportunity_id == c.opportunity_id
    && p.leg_id == c.leg_id
    && sequence_eq p.sequence c.sequence
    && p.fixture_id == c.fixture_id
    && p.market_id == c.market_id
    && p.outcome_id == c.outcome_id
    && odds_within p.selected_odds c.expected_odds

unfoldable pub simulation_command_expired : Clock → String → Bool
simulation_command_expired clock expires_at = number_le (clock.date_parse expires_at) clock.now

-- `freshSimulationSelection`: not more than a second ahead, and not older than the timeout.
unfoldable pub fresh_simulation_selection : Clock → String → Number → Bool
fresh_simulation_selection clock observed_at max_age_ms =
    is_finite (clock.date_parse observed_at)
    && number_le (fin (negsuc 999_999_999)) (number_sub clock.now (clock.date_parse observed_at))
    && number_le (number_sub clock.now (clock.date_parse observed_at)) max_age_ms

unfoldable pub simulated_placement_fingerprint : SimulatedPlaceBetRequest → Fingerprint
simulated_placement_fingerprint request = record {
  action_id = request.action_id;
  opportunity_id = request.opportunity_id;
  leg_id = request.leg_id;
  sequence = request.sequence;
  fixture_id = request.fixture_id;
  market_id = request.market_id;
  outcome_id = request.outcome_id;
  expected_odds = request.expected_odds;
  stake_vnd = request.stake_vnd;
}

-- `field === text`
abbrev is_text : Field → String → Bool
is_text (text s) t = s == t
is_text _ t = false

abbrev number_or_zero : Field → Number
number_or_zero (number n) = n
number_or_zero _ = zero_number

abbrev optional_text : Field → Option String
optional_text (text s) = some (trim s)
optional_text _ = none

-- `sendInvalidSimulatedResponse`
pub invalid_simulated_response : Clock → String → SimulateBetFrame → String → Reply
invalid_simulated_response clock session_id frame error =
    if falsy (clean_text frame.request_id)
      || falsy (clean_text frame.action_id)
      || not (is_text frame.session_id session_id)
    then silent
    else invalid (record {
      request_id = clean_text frame.request_id;
      action_id = clean_text frame.action_id;
      opportunity_id = clean_text frame.opportunity_id;
      leg_id = clean_text frame.leg_id;
      sequence = number_or_zero frame.sequence;
      idempotency_key = optional_text frame.idempotency_key;
      observed_at = clock.now_iso;
      error = error;
    })

abbrev pub prepared_selection : SimulatedBetCommand → Number → PreparedSimulatedSelection
prepared_selection c selected_odds = record {
  action_id = c.action_id;
  opportunity_id = c.opportunity_id;
  leg_id = c.leg_id;
  sequence = c.sequence;
  fixture_id = c.fixture_id;
  market_id = c.market_id;
  outcome_id = c.outcome_id;
  selected_odds = selected_odds;
}

module _ {H : Type 0} where
  -- The selection of the command's key, if the sink holds one that is open and fresh.
  unfoldable pub available : Clock → SimulatedBetCommand → Session H → Option OddsSelection
  available clock c s = elim (get (command_key c) s.latest_selections) [
    | none ↦ none
    | some selection ↦
        if not selection.suspended
          && fresh_simulation_selection clock
              (or_else (get (command_key c) s.latest_selection_observed_at) "") c.timeout_ms
        then some selection
        else none
  ]

  -- The selection is stored for the leg.
  unfoldable pub prepare_selection : SimulatedBetCommand → Number → Session H → Session H
  prepare_selection c odds s = record s {
    prepared_simulated_selections =
        set_bounded_map (simulated_leg_key c) (prepared_selection c odds)
          s.prepared_simulated_selections;
  }

  -- The select-odds phase of a command of this session.
  unfoldable pub select_odds : Clock → SimulatedBetCommand → Session H → Response × Session H
  select_odds clock c s =
      if simulation_command_expired clock c.expires_at
      then (failed clock.now_iso "simulated select command has expired", s)
      else elim (available clock c s) [
        | none ↦ (
          unavailable clock.now_iso c.expected_odds "selection is missing, suspended, or stale",
          s,
        )
        | some selection ↦ (
          selected (or_else (get (command_key c) s.latest_selection_observed_at) "") c.expected_odds
              selection.odds (serialize_confirmed_selection selection),
          prepare_selection c selection.odds s,
        )
      ]

  pub handle_simulated_select_odds : Clock → SimulateBetFrame → Session H → Reply × Session H
  handle_simulated_select_odds clock frame s =
      elim (parse_simulated_bet_command clock.date_parse frame) [
        | none ↦ (
          invalid_simulated_response clock s.session_id frame "invalid simulated select command",
          s,
        )
        | some parsed ↦
            if not (parsed.session_id == s.session_id)
            then (silent, s)
            else let (response, t) = select_odds clock parsed.command s in
              (answered parsed.command none response, t)
      ]

  -- A result is kept under the key, and the prepared selection of the leg is used up.
  unfoldable pub settle : SimulatedPlaceBetRequest → Response → Session H → Response × Session H
  settle request response s = (
    response,
    record s {
      simulated_placement_results =
          set_bounded_map request.idempotency_key
            (record { fingerprint = simulated_placement_fingerprint request; response = response })
            s.simulated_placement_results;
      prepared_simulated_selections =
          delete (simulated_leg_key request.command) s.prepared_simulated_selections;
    },
  )

  -- What the bookmaker's handler came to.
  unfoldable pub settle_placed :
      Clock
      → SimulatedPlaceBetRequest
      → Outcome SimulatedPlaceBetResult
      → Session H
      → Response × Session H
  settle_placed clock request (threw e) s = (failed clock.now_iso e, s)
  settle_placed clock request (returned r) s = settle request (placed r) s

  -- The call of the bookmaker's handler.
  unfoldable pub place_with :
      Handler H → Clock → SimulatedPlaceBetRequest → Session H → Response × Session H
  place_with none clock request s =
      (failed clock.now_iso "simulated placement is not configured by this collector", s)
  place_with (some handler) clock request s =
      let (o, h) = handler request s.handler_state in
      settle_placed clock request o (record s { handler_state = h })

  -- A placement whose selection was prepared.
  unfoldable pub place_prepared :
      Handler H → Clock → SimulatedPlaceBetRequest → Session H → Response × Session H
  place_prepared handler clock request s = elim (available clock request.command s) [
    | none ↦ (rejected clock.now_iso "prepared simulated selection is no longer available", s)
    | some current ↦
        if odds_differ current.odds request.expected_odds
        then settle request
            (placed (
              odds_changed
                (or_else (get (command_key request.command) s.latest_selection_observed_at) "")
                request.expected_odds current.odds))
            s
        else place_with handler clock request s
  ]

  -- A placement under a key that has no result yet.
  unfoldable pub place_new :
      Handler H → Clock → SimulatedPlaceBetRequest → Session H → Response × Session H
  place_new handler clock request s =
      if simulation_command_expired clock request.expires_at
      then (failed clock.now_iso "simulated placement command has expired", s)
      else elim (get (simulated_leg_key request.command) s.prepared_simulated_selections) [
        | none ↦
            (rejected clock.now_iso "simulated placement requires a matching select-odds phase", s)
        | some prepared ↦
            if not (same_prepared_selection prepared request.command)
            then (
              rejected clock.now_iso "simulated placement requires a matching select-odds phase",
              s,
            )
            else place_prepared handler clock request s
      ]

  -- The placement phase of a request of this session.
  unfoldable pub place_bet :
      Handler H → Clock → SimulatedPlaceBetRequest → Session H → Response × Session H
  place_bet handler clock request s =
      elim (get request.idempotency_key s.simulated_placement_results) [
        | some cached ↦
            if not (fingerprint_eq cached.fingerprint (simulated_placement_fingerprint request))
            then (
              failed clock.now_iso
                  "idempotency key was reused with a different simulated bet payload",
              s,
            )
            else (cached.response, s)
        | none ↦ place_new handler clock request s
      ]

  pub handle_simulated_place_bet :
      Handler H → Clock → SimulateBetFrame → Session H → Reply × Session H
  handle_simulated_place_bet handler clock frame s =
      elim (parse_simulated_place_bet_request clock.date_parse frame) [
        | none ↦ (
          invalid_simulated_response clock s.session_id frame "invalid simulated placement command",
          s,
        )
        | some parsed ↦
            if not (parsed.session_id == s.session_id)
            then (silent, s)
            else let (response, t) = place_bet handler clock parsed.request s in
              (answered parsed.command (some parsed.idempotency_key) response, t)
      ]
