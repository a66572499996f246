-- ===== src/LiveBets/Tests.antt =====
-- A live commit on either bookmaker, run on concrete slips.
use surebet.Base.{arith, ◌≤◌, ◌<◌, ◌⊎◌, ℕ, ◌≡◌, refl, true, false, none, some}
use surebet.Base.Int.{pos, negsuc}
use surebet.Base.Outcome.{returned, threw}
use surebet.Clock.{Clock}
use surebet.JsMap.{get, empty, set, size}
use surebet.Number.{fin, whole, unit, number_le}
use surebet.Contracts.Odds.{malay}
use surebet.Contracts.Bets.{
  LiveBetCorrelation, LivePrepareBetRequest, LiveBetPrepared, LiveCommitBetRequest,
  LiveReconcileBetRequest, rejected, LiveBetResult,
}
use surebet.LiveBets
use surebet.LiveBets.Actions.{Actions, IsTicketless}
use surebet.LiveBets.Jun88
use surebet.LiveBets.Actions.Reconcile.{IsFor, SamePayload}
use surebet.LiveBets.Journal.{size-journal}
use surebet.LiveBets.Reused.{commit_reused}
use surebet.LiveBets.Jun88.Once.{commit_once, commit_reconciled}
use surebet.LiveBets.EightXBet
use surebet.LiveBets.EightXBet.Once.{commit_replays}
use surebet.LiveBets.EightXBet.Malay.{indonesian_to_malay_bounds}

-- Every text is the time 2000.
abbrev clock : ℕ → Clock
clock now = record { date_parse = λ _. whole 2_000; now = whole now; now_iso = "now" }

abbrev correlation : LiveBetCorrelation
correlation = record {
  request_id = "request";
  action_id = "action";
  attempt_id = "attempt";
  opportunity_id = "opportunity";
  leg_id = "leg";
}

abbrev prepare_request : LivePrepareBetRequest
prepare_request = record {
  correlation = correlation;
  fixture_id = "fixture";
  market_id = "hdp-ah";
  outcome_id = "outcome";
  provider_ref = "ref";
  expected_odds = fin (pos 900_000);
  expected_raw_odds = none;
  odds_format = malay;
  quote_revision = none;
  expires_at = "soon";
}

abbrev shown : LiveBetPrepared
shown = record {
  prepare_id = "prepared";
  slip_fingerprint = "slip";
  displayed_odds = fin (pos 900_000);
  raw_odds = fin (pos 900_000);
  odds_format = malay;
  minimum_stake_vnd = whole 1_000;
  maximum_stake_vnd = whole 9_000;
  stake_increment_vnd = whole 1_000;
  balance_vnd = whole 8_000;
  session_generation = "generation";
  observed_at = "before";
}

abbrev request : LiveCommitBetRequest
request = record {
  correlation = correlation;
  prepare_id = "prepared";
  idempotency_key = "key";
  stake_vnd = whole 3_000;
  expected_odds = fin (pos 900_000);
  expires_at = "soon";
}

abbrev jun88_platform : Jun88.Platform
jun88_platform = record {
  to_upper_case = λ s. s;
  prepare_digest = λ _. "prepared";
  slip_digest = λ _. "slip";
  display_stake = λ _ _. "3";
}

abbrev jun88_page : Jun88.CommitPage
jun88_page = record {
  slip = returned (record {
    odds_type = "MY";
    team = "home";
    handicap = "0";
    score = "";
    bet_type = "";
    raw_odds = some (fin (pos 900_000));
    minimum_stake = some (whole 1);
    maximum_stake = some (whole 9);
  });
  type_stake = λ s. returned s;
}

abbrev jun88_lost : Jun88.CommitPage
jun88_lost = record { slip = threw "page closed"; type_stake = λ _. threw "page closed" }

abbrev jun88_state : Actions Jun88.Jun88Prepared
jun88_state = record {
  prepared =
      set "prepared"
        (record { shown = shown; request = prepare_request; stake_unit_vnd = whole 1_000 }) empty;
  journal = empty;
}

commit_once_example :
    (r : LiveBetResult) × (t : Actions Jun88.Jun88Prepared) × (Jun88.commit jun88_platform
        "generation"
        (clock 1_000)
        jun88_page
        request
        jun88_state
      ≡ (returned r, t))
    × (Jun88.commit jun88_platform "generation" (clock 1_500) jun88_lost request t
        ≡ (returned r, t))
    × IsTicketless r
unfolding LiveBets.assert_unexpired get
commit_once_example =
    commit_once jun88_platform "generation" (clock 1_000) (clock 1_500) jun88_page jun88_lost
      request jun88_state refl refl refl

abbrev eightxbet_platform : EightXBet.Platform
eightxbet_platform = record {
  to_upper_case = λ s. s;
  parse_provider_ref = λ _. none;
  prepare_digest = λ _. "prepared";
  slip_digest = λ _. "slip";
}

abbrev eightxbet_slip : EightXBet.EightXBetSlip
eightxbet_slip = record {
  card_text = "card";
  raw_odds = some (fin (pos 900_000));
  currency = "VND";
}

abbrev eightxbet_page : EightXBet.CommitPage
eightxbet_page = record {
  is_open = true;
  quick_bet_off = returned tt;
  slip = returned eightxbet_slip;
  accept_price_before = returned false;
  enter_stake = λ _. returned tt;
  accept_price_after = returned false;
  changed_slip = threw "no slip";
}

abbrev eightxbet_lost : EightXBet.CommitPage
eightxbet_lost = record eightxbet_page { is_open = false }

abbrev eightxbet_state : Actions EightXBet.EightXBetPrepared
eightxbet_state = record {
  prepared = set "prepared" (record { shown = shown; request = prepare_request }) empty;
  journal = empty;
}

commit_replays_example :
    (r : LiveBetResult) × (t : Actions EightXBet.EightXBetPrepared) × (EightXBet.commit
        eightxbet_platform "generation"
        (clock 1_000)
        eightxbet_page
        request
        eightxbet_state
      ≡ (returned r, t))
    × (EightXBet.commit eightxbet_platform "generation" (clock 1_500) eightxbet_lost request t
        ≡ (returned r, t))
    × IsTicketless r
unfolding LiveBets.assert_unexpired get
commit_replays_example =
    commit_replays eightxbet_platform "generation" (clock 1_000) (clock 1_500) eightxbet_page
      eightxbet_lost request eightxbet_state refl refl refl

-- Indonesian odds of 1.25 are Malay odds of -0.8.
indonesian_to_malay_bounds_example :
    (number_le (fin (negsuc 999_999)) (fin (negsuc 799_999)) ≡ true)
    × (number_le (fin (negsuc 799_999)) (whole 1) ≡ true)
    × ((1_250_000 ≤ unit) × (number_le (whole 0) (fin (negsuc 799_999)) ≡ true)
        ⊎ (unit < 1_250_000) × (number_le (fin (negsuc 799_999)) (whole 0) ≡ true))
unfolding EightXBet.indonesian_to_malay
indonesian_to_malay_bounds_example =
    indonesian_to_malay_bounds 1_250_000 (fin (negsuc 799_999)) refl

abbrev reconcile_request : LiveReconcileBetRequest
reconcile_request = record {
  correlation = correlation;
  idempotency_key = "key";
  expires_at = "soon";
}

abbrev same_ids : IsFor request reconcile_request
same_ids = record { key = refl; action = refl; opportunity = refl; leg = refl }

commit_reconciled_example :
    (r : LiveBetResult) × (t : Actions Jun88.Jun88Prepared) × (Jun88.commit jun88_platform
        "generation"
        (clock 1_000)
        jun88_page
        request
        jun88_state
      ≡ (returned r, t))
    × (Jun88.reconcile jun88_platform "generation" (clock 1_500) reconcile_request t
        ≡ (returned r, t))
unfolding LiveBets.assert_unexpired get
commit_reconciled_example =
    commit_reconciled jun88_platform "generation" (clock 1_000) (clock 1_500) jun88_page request
      reconcile_request jun88_state refl refl same_ids refl

-- An entry for another stake under the same key.
abbrev other_entry : LiveBets.CachedLiveCommit
other_entry = LiveBets.fresh_entry (record request { stake_vnd = whole 4_000 })

-- The same key, for another stake
abbrev other_stake : LiveCommitBetRequest
other_stake = record request { stake_vnd = whole 4_000 }

other_stake_differs : ¬ SamePayload request other_stake
other_stake_differs p = absurd (ground (arith, p.stake))

commit_reused_example :
    ((r : LiveBetResult) × (u : Actions Jun88.Jun88Prepared) × (Jun88.commit jun88_platform
          "generation"
          (clock 1_000)
          jun88_page
          request
          jun88_state
        ≡ (returned r, u))
      × (Jun88.commit jun88_platform "generation" (clock 1_500) jun88_lost other_stake u
          ≡ (threw "idempotency key was reused with a different live bet payload", u)))
    × ((r : LiveBetResult) × (u : Actions EightXBet.EightXBetPrepared) × (EightXBet.commit
            eightxbet_platform "generation"
            (clock 1_000)
            eightxbet_page
            request
            eightxbet_state
          ≡ (returned r, u))
        × (EightXBet.commit eightxbet_platform "generation"
              (clock 1_500)
              eightxbet_lost
              other_stake
              u
            ≡ (threw "idempotency key was reused with a different live bet payload", u)))
unfolding LiveBets.assert_unexpired get
commit_reused_example =
    commit_reused jun88_platform eightxbet_platform "generation" (clock 1_000) (clock 1_500)
      jun88_page jun88_lost eightxbet_page eightxbet_lost request other_stake jun88_state
      eightxbet_state refl refl refl other_stake_differs refl refl

size-journal_example :
    (size (LiveBets.begin request (set "other" other_entry empty)).1 ≤ 10_000)
    × (size (LiveBets.mark_submit_started "other" (set "other" other_entry empty)).1 ≤ 10_000)
    × (size (LiveBets.finish "other" (rejected "now" "closed") (set "other" other_entry empty)).1
        ≤ 10_000)
unfolding set
size-journal_example =
    size-journal request "other" (rejected "now" "closed") (set "other" other_entry empty)
      (omega arith)
