-- ===== src/Sink/Simulated/Place.antt =====
-- What a simulated placement takes and leaves behind
-- (`handleSimulatedPlaceBet` of collector/shared/src/backend/backend-collector-stream-sink.ts).
use surebet.Base.{
  Bool, ◌≡◌, sym, ◌∙◌, true, false, none, some, arith, eq_refl, inl, inr, Option-cases, Bool-cases,
  or_else,
}
use surebet.Base.Outcome.{Outcome, returned, threw}
use surebet.Clock.{Clock}
use surebet.JsMap.{get}
use surebet.JsMap.Bounded.{get-set_bounded_map_self}
use surebet.JsMap.Laws.{get-delete}
use surebet.Doubles.{odds_differ}
use surebet.Contracts.Odds.{OddsSelection}
use surebet.Contracts.Bets.{SimulatedPlaceBetRequest, SimulatedPlaceBetResult, odds_changed}
use surebet.SimulatedBets.Replay.{fingerprint_eq_self}
use surebet.Sink.Simulated.{
  Response, placed, Session, Handler, PreparedSimulatedSelection, simulated_leg_key,
  same_prepared_selection, simulation_command_expired, available, command_key,
  simulated_placement_fingerprint, settle, settle_placed, place_with, place_prepared, place_new,
  place_bet,
}

-- A ticket or changed odds
abbrev pub is_placed : Response → Bool
is_placed (placed r) = true
is_placed _ = false

module _ {H : Type 0} where
  -- The response is kept under the request's key, and the leg's prepared selection is used up.
  pub record IsSettled (request : SimulatedPlaceBetRequest) (r : Response) (t : Session H)
      : Type 0 where
    pub kept :
        get request.idempotency_key t.simulated_placement_results
        ≡ some (record { fingerprint = simulated_placement_fingerprint request; response = r })
    pub used_up : get (simulated_leg_key request.command) t.prepared_simulated_selections ≡ none

  settle-IsSettled :
      (request : SimulatedPlaceBetRequest) (response r : Response) (s t : Session H)
      → settle request response s ≡ (r, t)
      → IsSettled request r t
  unfolding settle
  settle-IsSettled request response r s t h = record {
    kept = ground (
      arith,
      get-set_bounded_map_self request.idempotency_key
          (record { fingerprint = simulated_placement_fingerprint request; response = response })
          s.simulated_placement_results,
    );
    used_up = ground (
      arith,
      eq_refl (simulated_leg_key request.command),
      get-delete (simulated_leg_key request.command) (simulated_leg_key request.command)
          s.prepared_simulated_selections,
    );
  }

  settle_placed-IsSettled :
      (clock : Clock) (request : SimulatedPlaceBetRequest) (o : Outcome SimulatedPlaceBetResult)
      (s t : Session H) (r : SimulatedPlaceBetResult)
      → settle_placed clock request o s ≡ (placed r, t)
      → IsSettled request (placed r) t
  unfolding settle_placed
  settle_placed-IsSettled clock request (threw e) s t r h = absurd cc
  settle_placed-IsSettled clock request (returned a) s t r h =
      settle-IsSettled request (placed a) (placed r) s t h

  place_with-IsSettled :
      (handler : Handler H) (clock : Clock) (request : SimulatedPlaceBetRequest) (s t : Session H)
      (r : SimulatedPlaceBetResult)
      → place_with handler clock request s ≡ (placed r, t)
      → IsSettled request (placed r) t
  unfolding place_with
  place_with-IsSettled none clock request s t r h = absurd cc
  place_with-IsSettled (some handler) clock request s t r h =
      settle_placed-IsSettled clock request _ _ t r h

  -- What a placement takes: a prepared selection that matches, and the same selection still held,
  -- open and fresh.
  pub record IsBacked (clock : Clock) (request : SimulatedPlaceBetRequest) (s : Session H)
      : Type 0 where
    pub prepared : PreparedSimulatedSelection
    pub current : OddsSelection
    pub was_prepared :
        get (simulated_leg_key request.command) s.prepared_simulated_selections ≡ some prepared
    pub matches : same_prepared_selection prepared request.command ≡ true
    pub is_available : available clock request.command s ≡ some current
    pub unexpired : simulation_command_expired clock request.expires_at ≡ false

  place_prepared-IsSettled :
      (handler : Handler H) (clock : Clock) (request : SimulatedPlaceBetRequest) (s t : Session H)
      (r : SimulatedPlaceBetResult)
      → place_prepared handler clock request s ≡ (placed r, t)
      → (current : OddsSelection) × (available clock request.command s ≡ some current)
        × IsSettled request (placed r) t
  unfolding place_prepared
  place_prepared-IsSettled handler clock request s t r h =
      elim (Option-cases (available clock request.command s)) [
        | inl e ↦ absurd (ground arith)
        | inr (current, e) ↦ (
          current,
          e,
          elim (Bool-cases (odds_differ current.odds request.expected_odds)) [
            | inl moved ↦
                settle-IsSettled request
                  (placed (
                    odds_changed
                      (or_else (get (command_key request.command) s.latest_selection_observed_at)
                        "")
                      request.expected_odds current.odds))
                  (placed r) s t (ground arith)
            | inr same ↦ place_with-IsSettled handler clock request s t r (ground arith)
          ],
        )
      ]

  place_new-IsBacked :
      (handler : Handler H) (clock : Clock) (request : SimulatedPlaceBetRequest) (s t : Session H)
      (r : SimulatedPlaceBetResult)
      → place_new handler clock request s ≡ (placed r, t)
      → IsBacked clock request s × IsSettled request (placed r) t
  unfolding place_new
  place_new-IsBacked handler clock request s t r h =
      elim (Bool-cases (simulation_command_expired clock request.expires_at)) [
        | inl late ↦ absurd (ground arith)
        | inr live ↦
            elim (Option-cases
              (get (simulated_leg_key request.command) s.prepared_simulated_selections)) [
                | inl e ↦ absurd (ground arith)
                | inr (prepared, e) ↦
                    elim (Bool-cases (same_prepared_selection prepared request.command)) [
                      | inr other ↦ absurd (ground arith)
                      | inl same ↦
                          let (current, found, settled) =
                            place_prepared-IsSettled handler clock request s t r (ground arith) in
                          (
                            record {
                              prepared = prepared;
                              current = current;
                              was_prepared = e;
                              matches = same;
                              is_available = found;
                              unexpired = live;
                            },
                            settled,
                          )
                    ]
              ]
      ]

  place_bet-new :
      (handler : Handler H) (clock : Clock) (request : SimulatedPlaceBetRequest) (s : Session H)
      → get request.idempotency_key s.simulated_placement_results ≡ none
      → place_bet handler clock request s ≡ place_new handler clock request s
  unfolding place_bet
  place_bet-new handler clock request s new = ground arith

  place_bet-kept :
      (handler : Handler H) (clock : Clock) (request : SimulatedPlaceBetRequest) (t : Session H)
      (r : Response)
      → IsSettled request r t
      → place_bet handler clock request t ≡ (r, t)
  unfolding place_bet
  place_bet-kept handler clock request t r settled =
      ground (arith, settled.kept, fingerprint_eq_self (simulated_placement_fingerprint request))

  -- A placement under a new key that gets a ticket or changed odds was backed by a prepared selection
  -- that matches it and by the same selection still held, open and fresh; the answer is kept and the
  -- leg's prepared selection is used up; and the same request gets the same answer at any later
  -- time, whatever the handler, and changes nothing.
  pub place_bet-IsBacked :
      (handler later_handler : Handler H) (clock later : Clock) (request : SimulatedPlaceBetRequest)
      (s t : Session H) (r : SimulatedPlaceBetResult)
      → get request.idempotency_key s.simulated_placement_results ≡ none
      → place_bet handler clock request s ≡ (placed r, t)
      → IsBacked clock request s
        × IsSettled request (placed r) t
        × (place_bet later_handler later request t ≡ (placed r, t))
  place_bet-IsBacked handler later_handler clock later request s t r new h =
      let (backed, settled) =
        place_new-IsBacked handler clock request s t r
          (sym (place_bet-new handler clock request s new) ∙ h) in
      (backed, settled, place_bet-kept later_handler later request t (placed r) settled)

  place_new-unprepared :
      (handler : Handler H) (clock : Clock) (request : SimulatedPlaceBetRequest) (s : Session H)
      → get (simulated_leg_key request.command) s.prepared_simulated_selections ≡ none
      → (is_placed (place_new handler clock request s).0 ≡ false)
        × ((place_new handler clock request s).1 ≡ s)
  unfolding place_new
  place_new-unprepared handler clock request s gone = (ground arith, ground arith)

  -- After a placement was answered, another request for the same leg under a key that is not in use
  -- gets no ticket and no changed odds, and changes nothing: one select-odds phase backs one
  -- placement.
  pub place_bet_once :
      (handler later_handler : Handler H) (clock later : Clock)
      (request other : SimulatedPlaceBetRequest) (s t : Session H) (r : SimulatedPlaceBetResult)
      → get request.idempotency_key s.simulated_placement_results ≡ none
      → place_bet handler clock request s ≡ (placed r, t)
      → simulated_leg_key other.command ≡ simulated_leg_key request.command
      → get other.idempotency_key t.simulated_placement_results ≡ none
      → (is_placed (place_bet later_handler later other t).0 ≡ false)
        × ((place_bet later_handler later other t).1 ≡ t)
  place_bet_once handler later_handler clock later request other s t r new h same free =
      let (backed, settled, again) =
        place_bet-IsBacked handler handler clock clock request s t r new h in
      rw (place_bet-new later_handler later other t free)
        (place_new-unprepared later_handler later other t (rw same settled.used_up))
