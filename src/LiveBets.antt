-- ===== src/LiveBets.antt =====
-- The process-local journal of live commits, and the checks and fingerprints around it
-- (collector/shared/src/live-actions.ts). An entry is one object that the journal and its reader
-- share; here the journal holds it, and what a read gives is the entry at that time.
pub mod Journal
pub mod Actions
pub mod Jun88
pub mod EightXBet
pub mod Reused
mod Tests
use surebet.Base.{
  ℕ, String, Bool, true, false, not, ◌&&◌, ◌||◌, Option, none, some, ◌==◌, leb, if◌then◌else◌,
}
use surebet.Base.Outcome.{Outcome, returned, threw, Method}
use surebet.Clock.{Clock}
use surebet.JsMap.{JsMap, get, set}
use surebet.JsMap.Bounded.{set_bounded}
use surebet.Number.{Number, json_number_eq, is_finite, number_le}
use surebet.Contracts.Bets.{LiveBetResult, LiveCommitBetRequest, LiveReconcileBetRequest}

pub record LiveBetFeatureFlags : Type 0 where
  pub enabled : Bool
  pub commit_enabled : Bool

abbrev pub live_bet_feature_flags : LiveBetFeatureFlags
live_bet_feature_flags = record { enabled = true; commit_enabled = true }

-- The fields that `liveCommitFingerprint` writes as JSON.
pub record CommitFingerprint : Type 0 where
  pub action_id : String
  pub attempt_id : String
  pub opportunity_id : String
  pub leg_id : String
  pub prepare_id : String
  pub stake_vnd : Number
  pub expected_odds : Number

pub live_commit_fingerprint : LiveCommitBetRequest → CommitFingerprint
live_commit_fingerprint request = record {
  action_id = request.action_id;
  attempt_id = request.attempt_id;
  opportunity_id = request.opportunity_id;
  leg_id = request.leg_id;
  prepare_id = request.prepare_id;
  stake_vnd = request.stake_vnd;
  expected_odds = request.expected_odds;
}

-- `===` on the JSON texts
pub fingerprint_eq : CommitFingerprint → CommitFingerprint → Bool
fingerprint_eq a b =
    a.action_id == b.action_id
    && a.attempt_id == b.attempt_id
    && a.opportunity_id == b.opportunity_id
    && a.leg_id == b.leg_id
    && a.prepare_id == b.prepare_id
    && json_number_eq a.stake_vnd b.stake_vnd
    && json_number_eq a.expected_odds b.expected_odds

pub data CommitState : Type 0 where
  before_send submit_started response_received : CommitState

pub record CachedLiveCommit : Type 0 where
  pub fingerprint : CommitFingerprint
  pub action_id : String
  pub opportunity_id : String
  pub leg_id : String
  pub state : CommitState
  pub result : Option LiveBetResult

-- The field `commits` of `ProcessLiveBetJournal`.
abbrev pub Commits : Type 0
Commits = JsMap CachedLiveCommit

pub read : String → Commits → Option CachedLiveCommit
read idempotency_key commits = get idempotency_key commits

pub read_for_reconcile : LiveReconcileBetRequest → Commits → Outcome (Option CachedLiveCommit)
read_for_reconcile request commits = elim (get request.idempotency_key commits) [
  | none ↦ returned none
  | some entry ↦
      if not (entry.action_id == request.action_id)
        || not (entry.opportunity_id == request.opportunity_id)
        || not (entry.leg_id == request.leg_id)
      then threw "reconcile correlation does not match the live commit journal entry"
      else returned (some entry)
]

-- The result of `begin`: `{ cached, entry }`.
pub record Started : Type 0 where
  pub cached : Bool
  pub entry : CachedLiveCommit

abbrev pub fresh_entry : LiveCommitBetRequest → CachedLiveCommit
fresh_entry request = record {
  fingerprint = live_commit_fingerprint request;
  action_id = request.action_id;
  opportunity_id = request.opportunity_id;
  leg_id = request.leg_id;
  state = before_send;
  result = none;
}

pub begin : LiveCommitBetRequest → Method Commits Started
begin request commits = elim (get request.idempotency_key commits) [
  | some current ↦
      if not (fingerprint_eq current.fingerprint (live_commit_fingerprint request))
      then (threw "idempotency key was reused with a different live bet payload", commits)
      else (returned (record { cached = true; entry = current }), commits)
  | none ↦ (
    returned (record { cached = false; entry = fresh_entry request }),
    set_bounded request.idempotency_key (fresh_entry request) commits,
  )
]

pub mark_submit_started : String → Method Commits (Unit {0})
mark_submit_started idempotency_key commits = elim (get idempotency_key commits) [
  | none ↦ (threw "live commit journal entry is missing", commits)
  | some entry ↦
      (returned tt, set idempotency_key (record entry { state = submit_started }) commits)
]

abbrev pub finished : String → LiveBetResult → CachedLiveCommit → Commits → Commits
finished idempotency_key result entry commits =
    set idempotency_key (record entry { state = response_received; result = some result }) commits

unfoldable pub finish : String → LiveBetResult → Method Commits (Unit {0})
finish idempotency_key result commits = elim (get idempotency_key commits) [
  | none ↦ (threw "live commit journal entry is missing", commits)
  | some entry ↦ (returned tt, finished idempotency_key result entry commits)
]

-- `assertUnexpired`
unfoldable pub assert_unexpired : Clock → String → Outcome (Unit {0})
assert_unexpired clock expires_at =
    let timestamp = clock.date_parse expires_at in
    if not (is_finite timestamp) || number_le timestamp clock.now
    then threw "live bet command has expired"
    else returned tt
