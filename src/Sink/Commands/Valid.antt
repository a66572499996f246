-- ===== src/Sink/Commands/Valid.antt =====
-- What the parsers of the stream sink
-- (collector/shared/src/backend/backend-collector-stream-sink.ts) let through, beside the simulated
-- bookmaker's own checks (collector/shared/src/actions.ts).
use surebet.Base.{◌≡◌, refl, String, true, false, none, some, arith, inl, inr, Option-cases}
use mathlib.Core.Path.{subst}
use surebet.Base.Text.{falsy}
use surebet.Clock.{Clock}
use surebet.Number.{
  Number, fin, nan, infinity, neg_infinity, whole, zero_number, is_finite, number_le, number_min,
  number_max, number_or, is_safe_integer,
}
use surebet.Contracts.Bets.{Sequence, SimulatedBetCommand, SimulatedPlaceBetRequest}
use surebet.SimulatedBets.{valid_malay_odds, validate_request}
use surebet.Sink.Requests.{
  Field, SimulateBetFrame, clean_text, stake_of, number, text, missing, other,
}
use surebet.Sink.Commands.{
  clamped_timeout, simulated_odds, sequence_of, timeout_of, ParsedSimulatedBetCommand, command_of,
  is_unnamed, is_incomplete, ParsedSimulatedPlaceBetRequest, parse_simulated_bet_command,
  parse_simulated_place_bet_request,
}

-- Whatever number a timeout is, NaN too, the wait is between 250 and 3000 milliseconds.
pub clamped_timeout_bounds :
    (timeout : Number)
    → (number_le (whole 250) (clamped_timeout timeout) ≡ true)
      × (number_le (clamped_timeout timeout) (whole 3_000) ≡ true)
unfolding clamped_timeout number_min number_max number_or
clamped_timeout_bounds (fin a) = ground arith
clamped_timeout_bounds nan = (refl, refl)
clamped_timeout_bounds infinity = (refl, refl)
clamped_timeout_bounds neg_infinity = (refl, refl)

-- What a command has in common with a valid one.
pub record IsSound (date_parse : String → Number) (c : SimulatedBetCommand) : Type 0 where
  pub named_request : falsy c.request_id ≡ false
  pub named_action : falsy c.action_id ≡ false
  pub named_opportunity : falsy c.opportunity_id ≡ false
  pub named_leg : falsy c.leg_id ≡ false
  pub named_fixture : falsy c.fixture_id ≡ false
  pub named_market : falsy c.market_id ≡ false
  pub named_outcome : falsy c.outcome_id ≡ false
  pub safe_stake : is_safe_integer c.stake_vnd ≡ true
  pub positive_stake : number_le c.stake_vnd zero_number ≡ false
  pub known_expiry : is_finite (date_parse c.expires_at) ≡ true

stake_of-some :
    (f : Field) (n : Number)
    → stake_of f ≡ some n
    → (is_safe_integer n ≡ true) × (number_le n zero_number ≡ false)
unfolding stake_of
stake_of-some (number m) n h = (ground arith, ground arith)
stake_of-some missing n h = absurd (ground arith)
stake_of-some other n h = absurd (ground arith)
stake_of-some (text t) n h = absurd (ground arith)

-- What a parsed command was made from.
record Origin (date_parse : String → Number) (frame : SimulateBetFrame)
    (p : ParsedSimulatedBetCommand) : Type 0 where
  odds : Number
  stake : Number
  timeout : Number
  sequence : Sequence
  stake_read : stake_of frame.stake_vnd ≡ some stake
  complete : is_incomplete date_parse frame ≡ false
  made : command_of frame odds stake sequence timeout ≡ p

parse_simulated_bet_command-Origin :
    (date_parse : String → Number) (frame : SimulateBetFrame) (p : ParsedSimulatedBetCommand)
    → parse_simulated_bet_command date_parse frame ≡ some p
    → Origin date_parse frame p
unfolding parse_simulated_bet_command
parse_simulated_bet_command-Origin date_parse frame p h =
    elim (Option-cases (simulated_odds frame.expected_odds)) [
      | inl e ↦ absurd (ground arith)
      | inr (odds, e1) ↦ elim (Option-cases (stake_of frame.stake_vnd)) [
        | inl e ↦ absurd (ground arith)
        | inr (stake, e2) ↦ elim (Option-cases (sequence_of frame.sequence)) [
          | inl e ↦ absurd (ground arith)
          | inr (sequence, e3) ↦ elim (Option-cases (timeout_of frame.timeout_ms)) [
            | inl e ↦ absurd (ground arith)
            | inr (timeout, e4) ↦ record {
              odds = odds;
              stake = stake;
              timeout = timeout;
              sequence = sequence;
              stake_read = e2;
              complete = ground arith;
              made = ground arith;
            }
          ]
        ]
      ]
    ]

is_incomplete-false :
    (date_parse : String → Number) (frame : SimulateBetFrame)
    → is_incomplete date_parse frame ≡ false
    → (is_unnamed frame ≡ false) × (is_finite (date_parse (clean_text frame.expires_at)) ≡ true)
unfolding is_incomplete
is_incomplete-false date_parse frame h = (ground arith, ground arith)

command_of-IsSound :
    (date_parse : String → Number) (frame : SimulateBetFrame) (odds stake : Number)
    (sequence : Sequence) (timeout : Number)
    → stake_of frame.stake_vnd ≡ some stake
    → is_unnamed frame ≡ false
    → is_finite (date_parse (clean_text frame.expires_at)) ≡ true
    → IsSound date_parse (command_of frame odds stake sequence timeout).command
unfolding is_unnamed command_of
command_of-IsSound date_parse frame odds stake sequence timeout h c expiry = record {
  named_request = ground arith;
  named_action = ground arith;
  named_opportunity = ground arith;
  named_leg = ground arith;
  named_fixture = ground arith;
  named_market = ground arith;
  named_outcome = ground arith;
  safe_stake = (stake_of-some frame.stake_vnd stake h).0;
  positive_stake = (stake_of-some frame.stake_vnd stake h).1;
  known_expiry = expiry;
}

parse_simulated_bet_command-IsSound :
    (date_parse : String → Number) (frame : SimulateBetFrame) (p : ParsedSimulatedBetCommand)
    → parse_simulated_bet_command date_parse frame ≡ some p
    → IsSound date_parse p.command
parse_simulated_bet_command-IsSound date_parse frame p h =
    let o = parse_simulated_bet_command-Origin date_parse frame p h in
    let (named, expiry) = is_incomplete-false date_parse frame o.complete in
    subst (λ q. IsSound date_parse q.command) o.made
      (command_of-IsSound date_parse frame o.odds o.stake o.sequence o.timeout o.stake_read named
        expiry)

parse_simulated_place_bet_request-command :
    (date_parse : String → Number) (frame : SimulateBetFrame) (p : ParsedSimulatedPlaceBetRequest)
    → parse_simulated_place_bet_request date_parse frame ≡ some p
    → (c : ParsedSimulatedBetCommand) × (parse_simulated_bet_command date_parse frame ≡ some c)
      × (c.command ≡ p.command)
      × (falsy p.idempotency_key ≡ false)
unfolding parse_simulated_place_bet_request
parse_simulated_place_bet_request-command date_parse frame p h =
    elim (Option-cases (parse_simulated_bet_command date_parse frame)) [
      | inl e ↦ absurd (ground arith)
      | inr (c, e) ↦ (c, e, ground arith, ground arith)
    ]

parse_simulated_place_bet_request-IsSound :
    (date_parse : String → Number) (frame : SimulateBetFrame) (p : ParsedSimulatedPlaceBetRequest)
    → parse_simulated_place_bet_request date_parse frame ≡ some p
    → IsSound date_parse p.command × (falsy p.idempotency_key ≡ false)
parse_simulated_place_bet_request-IsSound date_parse frame p h =
    let (c, e, same, named) = parse_simulated_place_bet_request-command date_parse frame p h in
    (
      subst (IsSound date_parse) same (parse_simulated_bet_command-IsSound date_parse frame c e),
      named,
    )

IsSound-validate_request :
    (clock : Clock) (request : SimulatedPlaceBetRequest)
    → IsSound clock.date_parse request.command
    → falsy request.idempotency_key ≡ false
    → valid_malay_odds request.expected_odds ≡ true
    → number_le (clock.date_parse request.expires_at) clock.now ≡ false
    → validate_request clock request ≡ none
unfolding validate_request valid_malay_odds
IsSound-validate_request clock request s named odds live = ground arith

-- A placement that the stream sink parsed passes the simulated bookmaker's checks, once its odds are
-- valid Malay odds and it has not expired.
pub parsed-validate_request :
    (clock : Clock) (frame : SimulateBetFrame) (p : ParsedSimulatedPlaceBetRequest)
    → parse_simulated_place_bet_request clock.date_parse frame ≡ some p
    → valid_malay_odds p.expected_odds ≡ true
    → number_le (clock.date_parse p.expires_at) clock.now ≡ false
    → validate_request clock p.request ≡ none
parsed-validate_request clock frame p h odds live =
    let (sound, named) = parse_simulated_place_bet_request-IsSound clock.date_parse frame p h in
    IsSound-validate_request clock p.request sound named odds live
