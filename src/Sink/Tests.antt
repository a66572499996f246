-- ===== src/Sink/Tests.antt =====
-- Frames of one simulated bet.
use surebet.Base.{ℕ, ◌≡◌, refl, true, false, none, some}
use surebet.Base.Int
use surebet.Base.Text
use surebet.JsMap
use surebet.JsMap.Bounded
use surebet.Number
use surebet.Doubles
use surebet.Doubles.{odds_within}
use surebet.SimulatedBets
use surebet.Sink.Cache
use surebet.Sink.Requests
use surebet.Sink.Commands
use surebet.Sink.Simulated
use surebet.Base.Int.{ℤ, pos}
use surebet.Base.Outcome.{returned, threw, Method}
use surebet.Clock.{Clock}
use surebet.JsMap.{get, set, empty}
use surebet.Number.{Number, fin, nan, whole, number_le}
use surebet.Contracts.Odds.{OddsSelection, malay}
use surebet.Contracts.Bets.{
  SimulatedBetCommand, SimulatedPlaceBetRequest, SimulatedPlaceBetResult, first_leg,
  ticket_accepted,
}
use surebet.SimulatedBets.{validate_request}
use surebet.Sink.Requests.{
  Field, missing, other, text, number, SimulateBetFrame, FrameSource, LiveBetFrame,
}
use surebet.Sink.Commands.{
  clamped_timeout, ParsedSimulatedPlaceBetRequest, parse_simulated_place_bet_request,
}
use surebet.Sink.Commands.Valid.{clamped_timeout_bounds, parsed-validate_request}
use surebet.Sink.Simulated.{
  Session, Handler, Response, placed, selected, prepared_selection, prepare_selection, place_bet,
  select_odds, settle, serialize_confirmed_selection, command_key, simulated_leg_key,
}
use surebet.Sink.Simulated.Place.{
  is_placed, IsBacked, IsSettled, place_bet-IsBacked, place_bet_once,
}
use surebet.Sink.Simulated.Phases.{select_odds-place_bet}

-- Every text is the time 2000.
abbrev clock : ℕ → Clock
clock now = record { date_parse = λ _. whole 2_000; now = whole now; now_iso = "now" }

clamped_timeout_bounds_example :
    (number_le (whole 250) (clamped_timeout nan) ≡ true)
    × (number_le (clamped_timeout nan) (whole 3_000) ≡ true)
clamped_timeout_bounds_example = clamped_timeout_bounds nan

abbrev command : SimulatedBetCommand
command = record {
  request_id = "request";
  action_id = "action";
  opportunity_id = "opportunity";
  leg_id = "leg";
  sequence = first_leg;
  fixture_id = "fixture";
  market_id = "hdp-ah";
  outcome_id = "outcome";
  expected_odds = fin (pos 900_000);
  stake_vnd = whole 5;
  expires_at = "soon";
  timeout_ms = whole 2_000;
}

abbrev request : SimulatedPlaceBetRequest
request = record { command = command; idempotency_key = "key" }

abbrev other_request : SimulatedPlaceBetRequest
other_request = record { command = command; idempotency_key = "other" }

abbrev place_frame : SimulateBetFrame
place_frame = record {
  session_id = text "session";
  request_id = text "request ";
  action_id = text "action";
  opportunity_id = text "opportunity";
  leg_id = text "leg";
  sequence = number (whole 1);
  fixture_id = text "fixture";
  market_id = text "hdp-ah";
  outcome_id = text "outcome";
  expected_odds = number (fin (pos 900_000));
  stake_vnd = number (whole 5);
  expires_at = text "soon";
  timeout_ms = missing;
  idempotency_key = text " key";
}

parsed-validate_request_example : validate_request (clock 1_000) request ≡ none
unfolding parse_simulated_place_bet_request Commands.parse_simulated_bet_command
    Commands.simulated_odds Requests.stake_of Number.is_safe_integer Commands.sequence_of
    Commands.timeout_of Commands.is_incomplete Commands.is_unnamed Text.trim Commands.command_of
    clamped_timeout Number.number_max Number.number_min Number.number_or
    SimulatedBets.valid_malay_odds
parsed-validate_request_example =
    parsed-validate_request (clock 1_000) place_frame
      (record { request = request; session_id = "session" }) refl refl refl

abbrev selection : OddsSelection
selection = record {
  fixture_id = "fixture";
  sport = none;
  home_team = some "Home";
  away_team = some "Away";
  league_name = none;
  match_state = none;
  event_start_at = none;
  market_id = "hdp-ah";
  outcome_id = "outcome";
  outcome_name = "Home -0.5";
  odds = fin (pos 900_000);
  available_stake = whole 0;
  suspended = false;
  source_event_id = none;
  raw_odds = none;
  odds_format = some malay;
  provider_ref = none;
}

-- The selection was observed at 2000, and the handler's state is not used.
abbrev session : Session (Unit {0})
session = record {
  session_id = "session";
  latest_selections = set (command_key command) selection empty;
  latest_selection_observed_at = set (command_key command) "then" empty;
  prepared_simulated_selections = empty;
  simulated_placement_results = empty;
  handler_state = tt;
}

abbrev ready : Session (Unit {0})
ready = prepare_selection command (fin (pos 900_000)) session

abbrev ticket : SimulatedPlaceBetResult
ticket = ticket_accepted "now" "SIM-J88-ABC" (fin (pos 900_000)) (whole 5)

abbrev accept : SimulatedPlaceBetRequest → Method (Unit {0}) SimulatedPlaceBetResult
accept r h = (returned ticket, h)

abbrev refuse : SimulatedPlaceBetRequest → Method (Unit {0}) SimulatedPlaceBetResult
refuse r h = (threw "closed", h)

place_bet-IsBacked_example :
    IsBacked (clock 1_500) request ready
    × IsSettled request (placed ticket) (settle request (placed ticket) ready).1
    × (place_bet (some refuse) (clock 9_000) request (settle request (placed ticket) ready).1
        ≡ (placed ticket, (settle request (placed ticket) ready).1))
unfolding get prepare_selection place_bet Simulated.place_new Simulated.simulation_command_expired
    Bounded.set_bounded_map set JsMap.has simulated_leg_key Simulated.same_prepared_selection
    Number.number_abs Number.number_sub Int.◌-ℤ◌ Doubles.odds_within Simulated.place_prepared
    Simulated.available Cache.selection_cache_key Simulated.fresh_simulation_selection
    Bounded.evict_oldest JsMap.delete JsMap.first_key Doubles.odds_differ Simulated.place_with
    Simulated.settle_placed settle
place_bet-IsBacked_example =
    place_bet-IsBacked (some accept) (some refuse) (clock 1_500) (clock 9_000) request ready
      (settle request (placed ticket) ready).1 ticket refl refl

place_bet_once_example :
    (is_placed
        (place_bet
          (some accept)
          (clock 1_600)
          other_request
          (settle request (placed ticket) ready).1).0
      ≡ false)
    × ((place_bet
          (some accept)
          (clock 1_600)
          other_request
          (settle request (placed ticket) ready).1).1
        ≡ (settle request (placed ticket) ready).1)
unfolding get prepare_selection place_bet Simulated.place_new Simulated.simulation_command_expired
    Bounded.set_bounded_map set JsMap.has simulated_leg_key Simulated.same_prepared_selection
    Number.number_abs Number.number_sub Int.◌-ℤ◌ Doubles.odds_within Simulated.place_prepared
    Simulated.available Cache.selection_cache_key Simulated.fresh_simulation_selection
    Bounded.evict_oldest JsMap.delete JsMap.first_key Doubles.odds_differ Simulated.place_with
    Simulated.settle_placed settle
place_bet_once_example =
    place_bet_once (some accept) (some accept) (clock 1_500) (clock 1_600) request other_request
      ready (settle request (placed ticket) ready).1 ticket refl refl refl refl

select_odds-place_bet_example :
    (place_bet (some accept) (clock 1_500) request ready).0 ≡ placed ticket
unfolding select_odds Simulated.simulation_command_expired Simulated.available get set
    Cache.selection_cache_key Simulated.fresh_simulation_selection Number.number_sub Int.◌-ℤ◌
    Number.number_abs prepare_selection odds_within
select_odds-place_bet_example =
    select_odds-place_bet accept (clock 1_500) request session ready "then" (fin (pos 900_000))
      (fin (pos 900_000)) (serialize_confirmed_selection selection) ticket refl refl refl refl

-- 0.901 - 0.9 is more than 0.001 as a double.
not_within : odds_within (fin (pos 901_000)) (fin (pos 900_000)) ≡ false
unfolding odds_within Int.◌-ℤ◌
not_within = refl

within : odds_within (fin (pos 900_000)) (fin (pos 900_900)) ≡ true
unfolding odds_within Int.◌-ℤ◌
within = refl
