-- ===== src/LiveBets/Journal.antt =====
-- What `begin` of the journal answers
-- (`ProcessLiveBetJournal` of collector/shared/src/live-actions.ts).
use surebet.Base.{◌≤◌, String, inl, inr, Option-cases, ◌≡◌, true, false, none, some, arith, eq_refl}
use surebet.Base.Outcome.{returned}
use surebet.JsMap.{get, set, size}
use surebet.JsMap.Laws.{size-set, has-get}
use surebet.JsMap.Bounded.{set_bounded, size-set_bounded}
use surebet.Number.{json_number_eq_self}
use surebet.Contracts.Bets.{LiveCommitBetRequest, LiveBetResult}
use surebet.LiveBets.{
  CommitFingerprint, live_commit_fingerprint, fingerprint_eq, Commits, CachedLiveCommit,
  fresh_entry, begin, mark_submit_started, submit_started, response_received, finish,
}

pub fingerprint_eq_self : (f : CommitFingerprint) → fingerprint_eq f f ≡ true
unfolding fingerprint_eq
fingerprint_eq_self f = simp (eq_refl, json_number_eq_self)

pub begin-fresh :
    (request : LiveCommitBetRequest) (commits : Commits)
    → get request.idempotency_key commits ≡ none
    → begin request commits ≡ (
      returned (record { cached = false; entry = fresh_entry request }),
      set_bounded request.idempotency_key (fresh_entry request) commits,
    )
unfolding begin
begin-fresh request commits h = ground arith

pub begin-cached :
    (request : LiveCommitBetRequest) (commits : Commits) (entry : CachedLiveCommit)
    → get request.idempotency_key commits ≡ some entry
    → entry.fingerprint ≡ live_commit_fingerprint request
    → begin request commits ≡ (returned (record { cached = true; entry = entry }), commits)
unfolding begin
begin-cached request commits entry h e =
    ground (arith, fingerprint_eq_self (live_commit_fingerprint request))

size-set-found :
    (k : String) (v e : CachedLiveCommit) (commits : Commits)
    → get k commits ≡ some e
    → size (set k v commits) ≡ size commits
size-set-found k v e commits h = ground (arith, size-set k v commits, has-get k commits)

-- A journal of at most 10,000 entries stays one through every method that changes it.
pub size-journal :
    (request : LiveCommitBetRequest) (key : String) (result : LiveBetResult) (commits : Commits)
    → size commits ≤ 10_000
    → (size (begin request commits).1 ≤ 10_000)
      × (size (mark_submit_started key commits).1 ≤ 10_000)
      × (size (finish key result commits).1 ≤ 10_000)
unfolding begin mark_submit_started finish
size-journal request key result commits h = (
  ground (arith, size-set_bounded request.idempotency_key (fresh_entry request) commits h),
  elim (Option-cases (get key commits)) [
    | inl e ↦ ground arith
    | inr (entry, e) ↦
        ground (arith, size-set-found key (record entry { state = submit_started }) entry commits e)
  ],
  elim (Option-cases (get key commits)) [
    | inl e ↦ ground arith
    | inr (entry, e) ↦ ground (
      arith,
      size-set-found key (record entry { state = response_received; result = some result }) entry
          commits e,
    )
  ],
)
