-- ===== src/LiveBets/Jun88/Once.antt =====
-- Repeated and reconciled commits on Jun88
-- (collector/shared/src/bookmakers/jun88-cmd-live-actions.ts).
use surebet.Base.{◌≡◌, String, Option, none, some}
use surebet.Base.Outcome.{returned, threw}
use surebet.JsMap.{get}
use surebet.Number.{Number}
use surebet.Contracts.Bets.{LiveCommitBetRequest, LiveReconcileBetRequest, LiveBetResult}
use surebet.Clock.{Clock}
use surebet.LiveBets.{assert_unexpired}
use surebet.LiveBets.Actions.{Actions, IsTicketless}
use surebet.LiveBets.Actions.Settles.{Settles, Tries, settle_rules}
use surebet.LiveBets.Actions.Once.{open_commit-Settled, open_commit-Ended}
use surebet.LiveBets.Actions.Reconcile.{
  SamePayload, open_commit-differs, IsFor, reconcile_with-Settled,
}
use surebet.LiveBets.Jun88.{
  Platform, Jun88Prepared, CommitPage, commit_at_odds, commit_on_page, commit_prepared, commit,
  reconcile,
}

module _ (platform : Platform) (generation : String) (clock : Clock) where
  commit_at_odds-Tries :
      (page : CommitPage) (request : LiveCommitBetRequest) (slot : Jun88Prepared)
      (odds : Option Number)
      → Tries request IsTicketless (commit_at_odds platform generation clock page request slot odds)
  unfolding commit_at_odds
  commit_at_odds-Tries page request slot none = search (settle_rules, tt)
  commit_at_odds-Tries page request slot (some raw_odds) = search (settle_rules, tt)

  commit_on_page-Tries :
      (page : CommitPage) (request : LiveCommitBetRequest) (slot : Jun88Prepared)
      → Tries request IsTicketless (commit_on_page platform generation clock page request slot)
  unfolding commit_on_page
  commit_on_page-Tries page request slot = search (settle_rules, commit_at_odds-Tries)

  commit_prepared-Settles :
      (page : CommitPage) (request : LiveCommitBetRequest) (slot : Option Jun88Prepared)
      → Settles request IsTicketless (commit_prepared platform generation clock page request slot)
  unfolding commit_prepared
  commit_prepared-Settles page request none = search (settle_rules, tt)
  commit_prepared-Settles page request (some slot) =
      search (settle_rules, tt, commit_on_page-Tries) depth 8

  attempt-Settles :
      (page : CommitPage) (request : LiveCommitBetRequest)
      → Settles request IsTicketless (λ s.
        commit_prepared platform generation clock page request
          (get request.prepare_id s.prepared)
          s)
  attempt-Settles page request = record {
    at = λ s o. (commit_prepared-Settles page request (get request.prepare_id s.prepared)).at s o;
  }

-- A commit under a new key returns a result that claims no ticket, never an error; and the same
-- request after it, at any clock at which it is unexpired and whatever the page does, gets that
-- result again and changes nothing.
pub commit_once :
    (platform : Platform) (generation : String) (clock later : Clock) (page other : CommitPage)
    (request : LiveCommitBetRequest) (s : Actions Jun88Prepared)
    → assert_unexpired clock request.expires_at ≡ returned tt
    → assert_unexpired later request.expires_at ≡ returned tt
    → get request.idempotency_key s.journal ≡ none
    → (r : LiveBetResult) × (t : Actions Jun88Prepared) × (commit platform generation clock page
          request s
        ≡ (returned r, t))
      × (commit platform generation later other request t ≡ (returned r, t))
      × IsTicketless r
unfolding commit
commit_once platform generation clock later page other request s live still new =
    let (r, t, e, settled, ticketless) =
      open_commit-Ended request IsTicketless clock
        "Jun88 commit has an unresolved process-local journal entry" _ s
        (attempt-Settles platform generation clock page request) live new in
    (r, t, e, open_commit-Settled request later _ _ t r still settled, ticketless)

-- After a commit under a new key, reconciling it, with the same key, action, opportunity and leg and
-- unexpired, gives the commit's result and changes nothing.
pub commit_reconciled :
    (platform : Platform) (generation : String) (clock later : Clock) (page : CommitPage)
    (request : LiveCommitBetRequest) (again : LiveReconcileBetRequest) (s : Actions Jun88Prepared)
    → assert_unexpired clock request.expires_at ≡ returned tt
    → assert_unexpired later again.expires_at ≡ returned tt
    → IsFor request again
    → get request.idempotency_key s.journal ≡ none
    → (r : LiveBetResult) × (t : Actions Jun88Prepared) × (commit platform generation clock page
          request s
        ≡ (returned r, t))
      × (reconcile platform generation later again t ≡ (returned r, t))
unfolding commit reconcile
commit_reconciled platform generation clock later page request again s live still same new =
    let (r, t, e, settled, ticketless) =
      open_commit-Ended request IsTicketless clock
        "Jun88 commit has an unresolved process-local journal entry" _ s
        (attempt-Settles platform generation clock page request) live new in
    (r, t, e, reconcile_with-Settled later _ _ request again t r still same settled)

pub commit_differs :
    (platform : Platform) (generation : String) (clock later : Clock) (page other : CommitPage)
    (request again : LiveCommitBetRequest) (s : Actions Jun88Prepared)
    → assert_unexpired clock request.expires_at ≡ returned tt
    → assert_unexpired later again.expires_at ≡ returned tt
    → again.idempotency_key ≡ request.idempotency_key
    → ¬ SamePayload request again
    → get request.idempotency_key s.journal ≡ none
    → (r : LiveBetResult) × (t : Actions Jun88Prepared) × (commit platform generation clock page
          request s
        ≡ (returned r, t))
      × (commit platform generation later other again t
          ≡ (threw "idempotency key was reused with a different live bet payload", t))
unfolding commit
commit_differs platform generation clock later page other request again s live still same differs
      new =
    let (r, t, e, settled, ticketless) =
      open_commit-Ended request IsTicketless clock
        "Jun88 commit has an unresolved process-local journal entry" _ s
        (attempt-Settles platform generation clock page request) live new in
    (r, t, e, open_commit-differs later _ request again _ t r still same differs settled)
