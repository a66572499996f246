-- ===== src/LiveBets/Actions/Reconcile.antt =====
-- What the journal says of a commit later: `reconcile`, and a key that is used again
-- (the two bookmakers' live actions and collector/shared/src/live-actions.ts).
use surebet.Base.{◌≡◌, sym, ap, ◌∙◌, String, true, false, some, arith, eq_iff, inl, inr, Bool-cases}
use surebet.Base.Outcome.{returned, threw, Method}
use surebet.Number.{json_number_eq}
use surebet.JsMap.{get}
use surebet.Contracts.Bets.{LiveCommitBetRequest, LiveReconcileBetRequest, LiveBetResult}
use surebet.Clock.{Clock}
use surebet.LiveBets.{
  CachedLiveCommit, assert_unexpired, begin, read_for_reconcile, fingerprint_eq,
  live_commit_fingerprint,
}
use surebet.LiveBets.Actions.{Actions, open_commit, reconcile_with}
use surebet.LiveBets.Actions.Settles.{Settled}

-- A reconcile request for a commit: the same key, action, opportunity and leg.
pub record IsFor (commit : LiveCommitBetRequest) (request : LiveReconcileBetRequest) : Type 0 where
  pub key : request.idempotency_key ≡ commit.idempotency_key
  pub action : request.action_id ≡ commit.action_id
  pub opportunity : request.opportunity_id ≡ commit.opportunity_id
  pub leg : request.leg_id ≡ commit.leg_id

-- The fields of the payload of a commit, with the numbers as JSON writes them.
pub record SamePayload (a b : LiveCommitBetRequest) : Type 0 where
  pub action : a.action_id ≡ b.action_id
  pub attempt : a.attempt_id ≡ b.attempt_id
  pub opportunity : a.opportunity_id ≡ b.opportunity_id
  pub leg : a.leg_id ≡ b.leg_id
  pub prepared : a.prepare_id ≡ b.prepare_id
  pub stake : json_number_eq a.stake_vnd b.stake_vnd ≡ true
  pub odds : json_number_eq a.expected_odds b.expected_odds ≡ true

fingerprint_eq-SamePayload :
    (a b : LiveCommitBetRequest)
    → fingerprint_eq (live_commit_fingerprint a) (live_commit_fingerprint b) ≡ true
    → SamePayload a b
unfolding fingerprint_eq live_commit_fingerprint
fingerprint_eq-SamePayload a b h = record {
  action = (eq_iff a.action_id b.action_id).0 (ground arith);
  attempt = (eq_iff a.attempt_id b.attempt_id).0 (ground arith);
  opportunity = (eq_iff a.opportunity_id b.opportunity_id).0 (ground arith);
  leg = (eq_iff a.leg_id b.leg_id).0 (ground arith);
  prepared = (eq_iff a.prepare_id b.prepare_id).0 (ground arith);
  stake = ground arith;
  odds = ground arith;
}

differs-fingerprint_eq :
    (a b : LiveCommitBetRequest)
    → ¬ SamePayload a b
    → fingerprint_eq (live_commit_fingerprint a) (live_commit_fingerprint b) ≡ false
differs-fingerprint_eq a b h =
    elim (Bool-cases (fingerprint_eq (live_commit_fingerprint a) (live_commit_fingerprint b))) [
      | inl e ↦ absurd (h (fingerprint_eq-SamePayload a b e))
      | inr e ↦ e
    ]

module _ {P : Type 0} where
  read_for_reconcile-Settled :
      (commit : LiveCommitBetRequest) (request : LiveReconcileBetRequest) (s : Actions P)
      (r : LiveBetResult) (settled : Settled commit r s.journal)
      → IsFor commit request
      → read_for_reconcile request s.journal ≡ returned (some settled.entry)
  unfolding read_for_reconcile
  read_for_reconcile-Settled commit request s r settled i = ground (
    arith,
    ap (λ k. get k s.journal) i.key ∙ settled.found,
    eq_iff settled.entry.action_id request.action_id,
    eq_iff settled.entry.opportunity_id request.opportunity_id,
    eq_iff settled.entry.leg_id request.leg_id,
    settled.same_action ∙ sym i.action,
    settled.same_opportunity ∙ sym i.opportunity,
    settled.same_leg ∙ sym i.leg,
  )

  pub reconcile_with-Settled :
      (clock : Clock) (unresolved missing : String) (commit : LiveCommitBetRequest)
      (request : LiveReconcileBetRequest) (s : Actions P) (r : LiveBetResult)
      → assert_unexpired clock request.expires_at ≡ returned tt
      → IsFor commit request
      → Settled commit r s.journal
      → reconcile_with clock unresolved missing request s ≡ (returned r, s)
  unfolding reconcile_with
  reconcile_with-Settled clock unresolved missing commit request s r live i settled =
      ground (arith, read_for_reconcile-Settled commit request s r settled i, settled.result_kept)

  open_commit-reused :
      (clock : Clock) (unresolved : String) (request : LiveCommitBetRequest)
      (attempt : Method (Actions P) LiveBetResult) (s : Actions P) (entry : CachedLiveCommit)
      → assert_unexpired clock request.expires_at ≡ returned tt
      → get request.idempotency_key s.journal ≡ some entry
      → fingerprint_eq entry.fingerprint (live_commit_fingerprint request) ≡ false
      → open_commit clock unresolved request attempt s
        ≡ (threw "idempotency key was reused with a different live bet payload", s)
  unfolding open_commit begin
  open_commit-reused clock unresolved request attempt s entry live found other = ground arith

  -- Another payload under the key of a commit that the journal holds
  pub open_commit-differs :
      (clock : Clock) (unresolved : String) (request again : LiveCommitBetRequest)
      (attempt : Method (Actions P) LiveBetResult) (s : Actions P) (r : LiveBetResult)
      → assert_unexpired clock again.expires_at ≡ returned tt
      → again.idempotency_key ≡ request.idempotency_key
      → ¬ SamePayload request again
      → Settled request r s.journal
      → open_commit clock unresolved again attempt s
        ≡ (threw "idempotency key was reused with a different live bet payload", s)
  open_commit-differs clock unresolved request again attempt s r live same differs settled =
      open_commit-reused clock unresolved again attempt s settled.entry live
        (ap (λ k. get k s.journal) same ∙ settled.found)
        (ap (λ f. fingerprint_eq f (live_commit_fingerprint again)) settled.fingerprint
          ∙ differs-fingerprint_eq request again differs)
