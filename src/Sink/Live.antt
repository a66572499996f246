-- ===== src/Sink/Live.antt =====
-- Live bet frames on the stream: `handleLivePrepare`, `handleLiveCommit`, `handleLiveCancel` and
-- `handleLiveReconcile` of collector/shared/src/backend/backend-collector-stream-sink.ts. The result
-- of a handler is the response that it sends, if any; `H` is the state of the live bet handler.
pub mod Commit
mod Tests
use surebet.Base.{
  String, Bool, true, false, not, ◌&&◌, ◌||◌, Option, none, some, List, [], ◌∷◌, ◌==◌,
  if◌then◌else◌,
}
use surebet.Base.Outcome.{Outcome, returned, threw, Method}
use surebet.Clock.{Clock}
use surebet.Number.{Number, whole, number_eq}
use surebet.Contracts.Odds.{CollectorSource, bookmaker_text, lobby_text}
use surebet.Contracts.Bets.{
  LiveBetCorrelation, LivePrepareBetRequest, LivePrepareBetResult, prepare_rejected,
  LiveCommitBetRequest, LiveBetResult, rejected, LiveCancelPreparedBetRequest,
  LiveCancelPreparedBetResult, cancel_rejected, LiveReconcileBetRequest,
}
use surebet.LiveBets.{live_bet_feature_flags}
use surebet.Sink.Requests.{
  Field, text, number, FrameSource, LiveBetFrame, clean_live_string, valid_future_timestamp,
  parse_live_correlation, parse_live_prepare_bet_request, parse_live_commit_bet_request,
  parse_live_cancel_prepared_bet_request, parse_live_reconcile_bet_request,
}

-- The identity of the stream.
pub record Target : Type 0 where
  pub is_version_4 : Bool
  pub session_id : String
  pub account_id : String
  pub source : CollectorSource

-- `field === text`
abbrev pub is_text : Field → String → Bool
is_text (text s) t = s == t
is_text _ t = false

abbrev pub is_four : Field → Bool
is_four (number n) = number_eq n (whole 4)
is_four _ = false

pub source_is : Option FrameSource → CollectorSource → Bool
source_is none source = false
source_is (some s) source =
    is_text s.collector_id source.collector_id
    && is_text s.bookmaker_id (bookmaker_text source.bookmaker_id)
    && is_text s.lobby_id (lobby_text source.lobby_id)

pub live_frame_targets_collector : Target → LiveBetFrame → Bool
live_frame_targets_collector target frame =
    target.is_version_4
    && is_four frame.protocol_version
    && is_text frame.session_id target.session_id
    && is_text frame.account_id target.account_id
    && source_is frame.source target.source

pub live_capabilities : List String
live_capabilities =
    if not live_bet_feature_flags.enabled
    then "account_balance_v1" ∷ []
    else if live_bet_feature_flags.commit_enabled
    then "account_balance_v1" ∷ "bet_prepare_v1" ∷ "bet_reconcile_v1" ∷ "bet_commit_v1" ∷ []
    else "account_balance_v1" ∷ "bet_prepare_v1" ∷ "bet_reconcile_v1" ∷ []

pub data ResponseType : Type 0 where
  bet_prepared bet_result bet_cancelled bet_reconciled : ResponseType

-- The `response` objects.
pub data Payload : Type 0 where
  prepare_payload : LivePrepareBetResult → Payload
  bet_payload : LiveBetResult → Payload
  cancel_payload : LiveCancelPreparedBetResult → Payload
  -- `rejected`: observed_at, error
  rejected_payload : String → String → Payload

-- What `sendLiveResponse` sends; the two ids are those that the response repeats.
pub record LiveResponse : Type 0 where
  pub response_type : ResponseType
  pub correlation : LiveBetCorrelation
  pub prepare_id : Option String
  pub idempotency_key : Option String
  pub payload : Payload

pub record LiveBetHandler (H : Type 0) : Type 0 where
  pub prepare : LivePrepareBetRequest → Method H LivePrepareBetResult
  pub commit : LiveCommitBetRequest → Method H LiveBetResult
  pub cancel : LiveCancelPreparedBetRequest → Method H LiveCancelPreparedBetResult
  pub reconcile : LiveReconcileBetRequest → Method H LiveBetResult

-- `sendInvalidLiveResponse`
pub invalid_live_response :
    Target → Clock → LiveBetFrame → ResponseType → String → Option LiveResponse
invalid_live_response target clock frame response_type error =
    if not (live_frame_targets_collector target frame)
    then none
    else elim (parse_live_correlation frame) [
      | none ↦ none
      | some correlation ↦ some (record {
        response_type = response_type;
        correlation = correlation;
        prepare_id = some (clean_live_string 512 frame.prepare_id);
        idempotency_key = some (clean_live_string 512 frame.idempotency_key);
        payload = rejected_payload clock.now_iso error;
      })
    ]

-- `catch (cause)`, around a result's payload
abbrev pub payload_of : {A : Type 0} → Clock → (A → Payload) → Outcome A → Payload
payload_of clock f (returned a) = f a
payload_of clock f (threw e) = rejected_payload clock.now_iso e

-- `catch (cause)` of the handlers whose results are bet results
abbrev pub bet_result_of : Clock → Outcome LiveBetResult → LiveBetResult
bet_result_of clock (returned r) = r
bet_result_of clock (threw e) = rejected clock.now_iso e

module _ {H : Type 0} where
  -- `assertLiveCommandFresh`, the test for a handler, and its call; an error is an outcome.
  pub call_fresh :
      {R A : Type 0}
      → Clock
      → String
      → String
      → Option (LiveBetHandler H)
      → (LiveBetHandler H → R → Method H A)
      → R
      → Method H A
  call_fresh clock expires_at disabled none method request h =
      if not (valid_future_timestamp clock expires_at)
      then (threw "live bet command has expired", h)
      else (threw disabled, h)
  call_fresh clock expires_at disabled (some handler) method request h =
      if not (valid_future_timestamp clock expires_at)
      then (threw "live bet command has expired", h)
      else method handler request h

  pub handle_live_prepare :
      Target → Option (LiveBetHandler H) → Clock → LiveBetFrame → H → Option LiveResponse × H
  handle_live_prepare target handler clock frame h =
      if not (live_frame_targets_collector target frame)
      then (none, h)
      else elim (parse_live_prepare_bet_request clock frame) [
        | none ↦
            (invalid_live_response target clock frame bet_prepared "invalid prepare_bet command", h)
        | some request ↦
            let (o, t) =
              call_fresh clock request.expires_at
                "live bet preparation is disabled by this collector" handler (λ l. l.prepare)
                request h in
            (
              some (record {
                response_type = bet_prepared;
                correlation = request.correlation;
                prepare_id = none;
                idempotency_key = none;
                payload = payload_of clock prepare_payload o;
              }),
              t,
            )
      ]

  pub handle_live_commit :
      Target → Option (LiveBetHandler H) → Clock → LiveBetFrame → H → Option LiveResponse × H
  handle_live_commit target handler clock frame h =
      if not (live_frame_targets_collector target frame)
      then (none, h)
      else elim (parse_live_commit_bet_request clock frame) [
        | none ↦
            (invalid_live_response target clock frame bet_result "invalid commit_bet command", h)
        | some request ↦
            let (o, t) =
              call_fresh clock request.expires_at "live bet commit is disabled by this collector"
                handler (λ l. l.commit) request h in
            (
              some (record {
                response_type = bet_result;
                correlation = request.correlation;
                prepare_id = some request.prepare_id;
                idempotency_key = some request.idempotency_key;
                payload = bet_payload (bet_result_of clock o);
              }),
              t,
            )
      ]

  pub handle_live_cancel :
      Target → Option (LiveBetHandler H) → Clock → LiveBetFrame → H → Option LiveResponse × H
  handle_live_cancel target handler clock frame h =
      if not (live_frame_targets_collector target frame)
      then (none, h)
      else elim (parse_live_cancel_prepared_bet_request clock frame) [
        | none ↦ (
          invalid_live_response target clock frame bet_cancelled
              "invalid cancel_prepared_bet command",
          h,
        )
        | some request ↦
            let (o, t) =
              call_fresh clock request.expires_at
                "live bet cancellation is disabled by this collector" handler (λ l. l.cancel)
                request h in
            (
              some (record {
                response_type = bet_cancelled;
                correlation = request.correlation;
                prepare_id = some request.prepare_id;
                idempotency_key = none;
                payload = payload_of clock cancel_payload o;
              }),
              t,
            )
      ]

  pub handle_live_reconcile :
      Target → Option (LiveBetHandler H) → Clock → LiveBetFrame → H → Option LiveResponse × H
  handle_live_reconcile target handler clock frame h =
      if not (live_frame_targets_collector target frame)
      then (none, h)
      else elim (parse_live_reconcile_bet_request clock frame) [
        | none ↦ (
          invalid_live_response target clock frame bet_reconciled "invalid reconcile_bet command",
          h,
        )
        | some request ↦
            let (o, t) =
              call_fresh clock request.expires_at
                "live bet reconciliation is disabled by this collector" handler (λ l. l.reconcile)
                request h in
            (
              some (record {
                response_type = bet_reconciled;
                correlation = request.correlation;
                prepare_id = none;
                idempotency_key = some request.idempotency_key;
                payload = bet_payload (bet_result_of clock o);
              }),
              t,
            )
      ]
