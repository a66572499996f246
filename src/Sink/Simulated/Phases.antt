-- ===== src/Sink/Simulated/Phases.antt =====
-- Selecting the odds and then placing the bet
-- (collector/shared/src/backend/backend-collector-stream-sink.ts).
use surebet.Base.{
  ℕ, ltb, leb, String, ◌≡◌, refl, true, false, none, some, arith, eq_refl, inl, inr, Option-cases,
  Bool-cases,
}
use mathlib.Core.Path.{subst}
use surebet.Base.Outcome.{returned, Method}
use surebet.Clock.{Clock}
use surebet.JsMap.{get}
use surebet.JsMap.Bounded.{get-set_bounded_map_self}
use surebet.Number.{Number, fin}
use surebet.Doubles.{odds_differ, odds_within, double, double_gap}
use surebet.Contracts.Odds.{OddsSelection}
use surebet.Contracts.Bets.{SimulatedBetCommand, SimulatedPlaceBetRequest, SimulatedPlaceBetResult}
use surebet.SimulatedBets.Replay.{sequence_eq_self}
use surebet.Sink.Simulated.{
  selected, placed, ConfirmedSelection, Session, prepared_selection, prepare_selection,
  simulated_leg_key, same_prepared_selection, simulation_command_expired, available, select_odds,
  settle_placed, settle, place_with, place_prepared, place_new, place_bet,
}

-- Doubles of which the code says `Math.abs(a - b) <= 0.001`
abbrev pub Near : Number → Number → Type 0
Near a b = odds_within a b ≡ true

Near-odds_differ : (a b : Number) → Near a b → odds_differ a b ≡ false
unfolding odds_differ odds_within
Near-odds_differ (fin a) (fin b) h = not_above (double_gap a b) (double 1_000) h
  where
    not_above : (n m : ℕ) → leb n m ≡ true → ltb m n ≡ false
    not_above n m h = ground arith
Near-odds_differ _ _ h = absurd (ground arith)

prepared_selection-same :
    (c : SimulatedBetCommand) (odds : Number)
    → Near odds c.expected_odds
    → same_prepared_selection (prepared_selection c odds) c ≡ true
unfolding same_prepared_selection
prepared_selection-same c odds h = ground (
  arith,
  eq_refl c.action_id,
  eq_refl c.opportunity_id,
  eq_refl c.leg_id,
  sequence_eq_self c.sequence,
  eq_refl c.fixture_id,
  eq_refl c.market_id,
  eq_refl c.outcome_id,
)

module _ {H : Type 0} where
  -- What a successful selection leaves behind.
  record IsSelected (clock : Clock) (c : SimulatedBetCommand) (u : Session H) (odds : Number)
      : Type 0 where
    selection : OddsSelection
    unexpired : simulation_command_expired clock c.expires_at ≡ false
    found : available clock c u ≡ some selection
    has_odds : selection.odds ≡ odds
    was_prepared :
        get (simulated_leg_key c) u.prepared_simulated_selections ≡ some (prepared_selection c odds)

  prepare_selection-IsSelected :
      (clock : Clock) (c : SimulatedBetCommand) (s : Session H) (selection : OddsSelection)
      → simulation_command_expired clock c.expires_at ≡ false
      → available clock c s ≡ some selection
      → IsSelected clock c (prepare_selection c selection.odds s) selection.odds
  unfolding prepare_selection available
  prepare_selection-IsSelected clock c s selection live found = record {
    selection = selection;
    unexpired = live;
    found = found;
    has_odds = refl;
    was_prepared =
        get-set_bounded_map_self (simulated_leg_key c) (prepared_selection c selection.odds)
          s.prepared_simulated_selections;
  }

  select_odds-IsSelected :
      (clock : Clock) (c : SimulatedBetCommand) (s u : Session H) (at : String)
      (expected odds : Number) (confirmed : ConfirmedSelection)
      → select_odds clock c s ≡ (selected at expected odds confirmed, u)
      → IsSelected clock c u odds
  unfolding select_odds
  select_odds-IsSelected clock c s u at expected odds confirmed h =
      elim (Bool-cases (simulation_command_expired clock c.expires_at)) [
        | inl late ↦ absurd (ground arith)
        | inr live ↦ elim (Option-cases (available clock c s)) [
          | inl e ↦ absurd (ground arith)
          | inr (selection, e) ↦
              let same_session : prepare_selection c selection.odds s ≡ u = ground arith in
              let same_odds : selection.odds ≡ odds = ground arith in
              subst (λ v. IsSelected clock c v odds) same_session
                (subst (IsSelected clock c (prepare_selection c selection.odds s)) same_odds
                  (prepare_selection-IsSelected clock c s selection live e))
        ]
      ]

  place_with-returned :
      (f : SimulatedPlaceBetRequest → Method H SimulatedPlaceBetResult) (clock : Clock)
      (request : SimulatedPlaceBetRequest) (u : Session H) (a : SimulatedPlaceBetResult)
      → (f request u.handler_state).0 ≡ returned a
      → (place_with (some f) clock request u).0 ≡ placed a
  unfolding place_with settle_placed settle
  place_with-returned f clock request u a h = ground arith

  IsSelected-place_bet :
      (f : SimulatedPlaceBetRequest → Method H SimulatedPlaceBetResult) (clock : Clock)
      (request : SimulatedPlaceBetRequest) (u : Session H) (odds : Number)
      (a : SimulatedPlaceBetResult)
      → IsSelected clock request.command u odds
      → Near odds request.expected_odds
      → get request.idempotency_key u.simulated_placement_results ≡ none
      → (f request u.handler_state).0 ≡ returned a
      → (place_bet (some f) clock request u).0 ≡ placed a
  unfolding place_bet place_new place_prepared
  IsSelected-place_bet f clock request u odds a i near new h = ground (
    arith,
    i.unexpired,
    i.found,
    i.has_odds,
    i.was_prepared,
    prepared_selection-same request.command odds near,
    Near-odds_differ odds request.expected_odds near,
    place_with-returned f clock request u a h,
  )

  -- A placement right after the selection of its odds, at odds within 0.001 of the selected ones as
  -- doubles and under a new key, gets what the bookmaker's handler returns.
  pub select_odds-place_bet :
      (f : SimulatedPlaceBetRequest → Method H SimulatedPlaceBetResult) (clock : Clock)
      (request : SimulatedPlaceBetRequest) (s u : Session H) (at : String) (expected odds : Number)
      (confirmed : ConfirmedSelection) (a : SimulatedPlaceBetResult)
      → select_odds clock request.command s ≡ (selected at expected odds confirmed, u)
      → Near odds request.expected_odds
      → get request.idempotency_key u.simulated_placement_results ≡ none
      → (f request u.handler_state).0 ≡ returned a
      → (place_bet (some f) clock request u).0 ≡ placed a
  select_odds-place_bet f clock request s u at expected odds confirmed a h near new returns =
      IsSelected-place_bet f clock request u odds a
        (select_odds-IsSelected clock request.command s u at expected odds confirmed h) near new
        returns
