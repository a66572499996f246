-- ===== src/Sink/Live/Tests.antt =====
-- Frames of a live commit.
use surebet.Base.{ℕ, String, ◌≡◌, arith, ap, refl, true, false, none, some}
use surebet.Base.Int.{pos}
use surebet.Base.Outcome.{threw}
use surebet.Clock.{Clock}
use surebet.JsMap.{get, empty}
use surebet.Number.{Number, fin, whole}
use surebet.Contracts.Odds.{jun88, cmd}
use surebet.Contracts.Bets.{LiveCommitBetRequest, LiveBetResult}
use surebet.LiveBets.Actions.{Actions, IsTicketless}
use surebet.LiveBets.Jun88
use surebet.Sink.Requests.{Field, missing, text, number, FrameSource, LiveBetFrame}
use surebet.Sink.Live.{
  is_text, Target, handle_live_prepare, handle_live_commit, handle_live_cancel,
  handle_live_reconcile,
}
use surebet.Sink.Live.Commit.{
  jun88_handler, commit_response, IsAddressed, handle_live-misdirected, handle_live_commit_once,
}

-- Every text is the time 2000.
abbrev clock : ℕ → Clock
clock now = record { date_parse = λ _. whole 2_000; now = whole now; now_iso = "now" }

abbrev target : Target
target = record {
  is_version_4 = true;
  session_id = "session";
  account_id = "account";
  source = record { collector_id = "collector"; bookmaker_id = jun88; lobby_id = cmd };
}

abbrev frame : LiveBetFrame
frame = record {
  protocol_version = number (whole 4);
  session_id = text "session";
  request_id = text "request";
  action_id = text "action";
  attempt_id = text "attempt";
  opportunity_id = text "opportunity";
  leg_id = text "leg";
  account_id = text "account";
  source = some (record {
    collector_id = text "collector";
    bookmaker_id = text "jun88";
    lobby_id = text "cmd";
  });
  fixture_id = missing;
  market_id = missing;
  outcome_id = missing;
  provider_ref = missing;
  expected_odds = number (fin (pos 900_000));
  expected_raw_odds = missing;
  odds_format = missing;
  quote_revision = missing;
  prepare_id = text "prepared";
  idempotency_key = text "key";
  stake_vnd = number (whole 3_000);
  expires_at = text "soon";
}

-- The same frame in another session.
abbrev stray : LiveBetFrame
stray = record frame { session_id = text "other" }

abbrev request : LiveCommitBetRequest
request = record {
  correlation = record {
    request_id = "request";
    action_id = "action";
    attempt_id = "attempt";
    opportunity_id = "opportunity";
    leg_id = "leg";
  };
  prepare_id = "prepared";
  idempotency_key = "key";
  stake_vnd = whole 3_000;
  expected_odds = fin (pos 900_000);
  expires_at = "soon";
}

abbrev platform : Jun88.Platform
platform = record {
  to_upper_case = λ s. s;
  prepare_digest = λ _. "prepared";
  slip_digest = λ _. "slip";
  display_stake = λ _ _. "3";
}

abbrev closed_page : Jun88.CommitPage
closed_page = record { slip = threw "page closed"; type_stake = λ _. threw "page closed" }

abbrev prepare_page : Jun88.PreparePage
prepare_page = record {
  identity_matches = threw "page closed";
  selected_raw_odds = threw "page closed";
  click_odds = threw "page closed";
  slip = threw "page closed";
  balance_vnd = threw "page closed";
}

abbrev state : Actions Jun88.Jun88Prepared
state = record { prepared = empty; journal = empty }

other_session : ¬ IsAddressed target stray
other_session a = absurd (ground (arith, ap (λ field. is_text field "other") a.session))

handle_live-misdirected_example :
    (handle_live_prepare target
        (some (jun88_handler platform "generation" (clock 1_000) prepare_page closed_page))
        (clock 1_000)
        stray
        state
      ≡ (none, state))
    × (handle_live_commit target
          (some (jun88_handler platform "generation" (clock 1_000) prepare_page closed_page))
          (clock 1_000)
          stray
          state
        ≡ (none, state))
    × (handle_live_cancel target
          (some (jun88_handler platform "generation" (clock 1_000) prepare_page closed_page))
          (clock 1_000)
          stray
          state
        ≡ (none, state))
    × (handle_live_reconcile target
          (some (jun88_handler platform "generation" (clock 1_000) prepare_page closed_page))
          (clock 1_000)
          stray
          state
        ≡ (none, state))
handle_live-misdirected_example =
    handle_live-misdirected target
      (some (jun88_handler platform "generation" (clock 1_000) prepare_page closed_page))
      (clock 1_000) stray state other_session

handle_live_commit_once_example :
    (r : LiveBetResult) × (t : Actions Jun88.Jun88Prepared) × (handle_live_commit target
        (some (jun88_handler platform "generation" (clock 1_000) prepare_page closed_page))
        (clock 1_000)
        frame
        state
      ≡ (some (commit_response request r), t))
    × (handle_live_commit target
          (some (jun88_handler platform "generation" (clock 1_500) prepare_page closed_page))
          (clock 1_500)
          frame
          t
        ≡ (some (commit_response request r), t))
    × IsTicketless r
unfolding surebet.Sink.Live.live_frame_targets_collector surebet.Sink.Live.source_is
    surebet.Sink.Requests.parse_live_commit_bet_request surebet.Sink.Requests.parse_live_correlation
    surebet.Sink.Requests.clean_live_string surebet.Base.Text.utf16_length surebet.Base.Text.trim
    surebet.Sink.Requests.canonical_odds surebet.Sink.Requests.stake_of
    surebet.Number.is_safe_integer surebet.Sink.Requests.valid_future_timestamp get
handle_live_commit_once_example =
    handle_live_commit_once target platform "generation" (clock 1_000) (clock 1_500) prepare_page
      closed_page closed_page frame request state refl refl refl refl
