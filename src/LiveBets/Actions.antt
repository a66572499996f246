-- ===== src/LiveBets/Actions.antt =====
-- What the two bookmakers' live actions have in common
-- (collector/shared/src/bookmakers/jun88-cmd-live-actions.ts and eightxbet-live-actions.ts): the
-- object's state, the calls of the journal, and the steps that both classes write alike. The
-- methods run one after the other (`SerialLiveBetActions`), so each is a function of the state.
pub mod Settles
pub mod Once
pub mod Reconcile
use surebet.Base.{
  String, Bool, true, false, not, ◌&&◌, ◌||◌, Option, none, some, ◌==◌, or_else, if◌then◌else◌,
}
use surebet.Base.Outcome.{Outcome, returned, threw, Method, ◌>>=◌, ◌>>◌, pure, lift}
use surebet.JsMap.{JsMap, get, set, delete, empty}
use surebet.Contracts.Bets.{
  LiveBetCorrelation, LivePrepareBetRequest, LiveCommitBetRequest, LiveReconcileBetRequest,
  LiveCancelPreparedBetRequest, LiveBetResult, ticket_accepted, odds_changed, rejected,
  submission_unknown,
}
use surebet.LiveBets
use surebet.Clock.{Clock}
use surebet.LiveBets.{
  Commits, CachedLiveCommit, CommitState, before_send, submit_started, response_received, Started,
  begin, read_for_reconcile, assert_unexpired,
}

-- The fields `prepared` and `journal` of either class; `P` is what a prepared slip holds.
pub record Actions (P : Type 0) : Type 0 where
  pub prepared : JsMap P
  pub journal : Commits

-- What the fields of `liveBetPrepareID` are hashed from.
pub record PrepareIdFields : Type 0 where
  pub session_generation : String
  pub action_id : String
  pub attempt_id : String
  pub leg_id : String
  pub provider_ref : String
  pub quote_revision : String

pub prepare_id_fields : LivePrepareBetRequest → String → PrepareIdFields
prepare_id_fields request session_generation = record {
  session_generation = session_generation;
  action_id = request.action_id;
  attempt_id = request.attempt_id;
  leg_id = request.leg_id;
  provider_ref = request.provider_ref;
  quote_revision = or_else request.quote_revision "";
}

-- `rejected` and `unknown`, stamped by the clock
abbrev pub reject : Clock → String → LiveBetResult
reject clock error = rejected clock.now_iso error

abbrev pub unknown : Clock → String → LiveBetResult
unknown clock error = submission_unknown clock.now_iso error

-- A result that claims no ticket.
abbrev pub IsTicketless : LiveBetResult → Type 0
IsTicketless (ticket_accepted _ _ _ _) = ⊥
IsTicketless _ = Unit

pub same_correlation : LivePrepareBetRequest → LiveBetCorrelation → Bool
same_correlation left right =
    left.action_id == right.action_id
    && left.opportunity_id == right.opportunity_id
    && left.leg_id == right.leg_id

-- The answer to a commit that the journal knows already.
unfoldable pub replay : Clock → String → CachedLiveCommit → LiveBetResult
replay clock unresolved entry = or_else entry.result (unknown clock unresolved)

-- What `reconcile` answers while a commit has no result.
unfoldable pub pending : Clock → String → String → CommitState → LiveBetResult
pending clock unresolved missing submit_started = unknown clock unresolved
pending clock unresolved missing _ = reject clock missing

unfoldable pub reconciled : Clock → String → String → Option CachedLiveCommit → LiveBetResult
unfolding pending
reconciled clock unresolved missing none = reject clock missing
reconciled clock unresolved missing (some entry) =
    or_else entry.result (pending clock unresolved missing entry.state)

module _ {P : Type 0} where
  pub new_actions : Actions P
  new_actions = record { prepared = empty; journal = empty }

  -- A call of the journal.
  unfoldable pub on_journal : {A : Type 0} → Method Commits A → Method (Actions P) A
  on_journal m s = let (o, journal) = m s.journal in (o, record s { journal = journal })

  -- `finish(request, result)` of either class
  unfoldable pub finish_with :
      LiveCommitBetRequest → LiveBetResult → Method (Actions P) LiveBetResult
  unfolding on_journal
  finish_with request result =
      on_journal (LiveBets.finish request.idempotency_key result) >>= λ _. pure result

  -- The opening of `commit`: expiry, the journal, and the answer to a repeated request. `attempt`
  -- is the rest of the method.
  unfoldable pub open_commit :
      Clock
      → String
      → LiveCommitBetRequest
      → Method (Actions P) LiveBetResult
      → Method (Actions P) LiveBetResult
  unfolding on_journal replay
  open_commit clock unresolved request attempt = do
    lift (assert_unexpired clock request.expires_at)
    started ← on_journal (begin request)
    if started.cached then pure (replay clock unresolved started.entry) else attempt

  -- The `reconcile` method; the two texts are the messages of the class.
  unfoldable pub reconcile_with :
      Clock → String → String → LiveReconcileBetRequest → Method (Actions P) LiveBetResult
  unfolding reconciled
  reconcile_with clock unresolved missing request = do
    lift (assert_unexpired clock request.expires_at)
    found ← (λ s. (read_for_reconcile request s.journal, s))
    pure (reconciled clock unresolved missing found)
