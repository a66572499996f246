-- ===== src/Sink/Live/Commit.antt =====
-- Live frames end to end: which frames are served, and a commit that is sent twice
-- (collector/shared/src/backend/backend-collector-stream-sink.ts and
-- collector/shared/src/bookmakers/jun88-cmd-live-actions.ts).
use surebet.Base.{
  String, ◌≡◌, refl, ap, true, false, Option, none, some, arith, inl, inr, eq_iff, Option-cases,
  Bool-cases,
}
use surebet.Base.Outcome.{returned}
use surebet.Clock.{Clock}
use surebet.JsMap.{get}
use surebet.Number.{Number, fin, infinity, neg_infinity, number_lt, number_le}
use surebet.Contracts.Bets.{LiveCommitBetRequest, LiveBetResult}
use surebet.LiveBets.{assert_unexpired}
use surebet.LiveBets.Actions.{Actions, IsTicketless}
use surebet.LiveBets.Jun88
use surebet.LiveBets.Jun88.Once.{commit_once}
use surebet.Contracts.Odds.{bookmaker_text, lobby_text}
use surebet.Sink.Requests.{
  Field, missing, text, number, FrameSource, LiveBetFrame, valid_future_timestamp,
  parse_live_correlation, canonical_odds, stake_of, parse_live_commit_bet_request,
}
use surebet.Sink.Live.{
  is_text, is_four, source_is, Target, LiveBetHandler, LiveResponse, bet_result, bet_payload,
  live_frame_targets_collector, call_fresh, handle_live_prepare, handle_live_commit,
  handle_live_cancel, handle_live_reconcile,
}

-- The stream and the frame speak version 4, and the frame carries the session, the account and the
-- three ids of the source of the stream.
pub record IsAddressed (target : Target) (frame : LiveBetFrame) : Type 0 where
  pub stream_version : target.is_version_4 ≡ true
  pub source : FrameSource
  pub frame_version : is_four frame.protocol_version ≡ true
  pub session : frame.session_id ≡ text target.session_id
  pub account : frame.account_id ≡ text target.account_id
  pub has_source : frame.source ≡ some source
  pub collector : source.collector_id ≡ text target.source.collector_id
  pub bookmaker : source.bookmaker_id ≡ text (bookmaker_text target.source.bookmaker_id)
  pub lobby : source.lobby_id ≡ text (lobby_text target.source.lobby_id)

is_text-text : (field : Field) (t : String) → is_text field t ≡ true → field ≡ text t
is_text-text (text s) t h = ap text ((eq_iff s t).0 h)
is_text-text missing t h = absurd (ground arith)
is_text-text (number n) t h = absurd (ground arith)
is_text-text Field.other t h = absurd (ground arith)

targets-IsAddressed :
    (target : Target) (frame : LiveBetFrame)
    → live_frame_targets_collector target frame ≡ true
    → IsAddressed target frame
unfolding live_frame_targets_collector source_is
targets-IsAddressed target frame h = elim (Option-cases frame.source) [
  | inl e ↦ absurd (ground arith)
  | inr (source, e) ↦ record {
    stream_version = ground arith;
    source = source;
    frame_version = ground arith;
    session = is_text-text frame.session_id target.session_id (ground arith);
    account = is_text-text frame.account_id target.account_id (ground arith);
    has_source = e;
    collector = is_text-text source.collector_id target.source.collector_id (ground arith);
    bookmaker =
        is_text-text source.bookmaker_id (bookmaker_text target.source.bookmaker_id) (ground arith);
    lobby = is_text-text source.lobby_id (lobby_text target.source.lobby_id) (ground arith);
  }
]

-- A frame is not answered and reaches no handler, unless the stream and the frame speak version 4
-- and the frame carries the session, the account and the three ids of the source of the stream: of
-- the four kinds of command, none sends anything or changes the handler.
pub handle_live-misdirected :
    {H : Type 0} (target : Target) (handler : Option (LiveBetHandler H)) (clock : Clock)
    (frame : LiveBetFrame) (h : H)
    → ¬ IsAddressed target frame
    → (handle_live_prepare target handler clock frame h ≡ (none, h))
      × (handle_live_commit target handler clock frame h ≡ (none, h))
      × (handle_live_cancel target handler clock frame h ≡ (none, h))
      × (handle_live_reconcile target handler clock frame h ≡ (none, h))
unfolding handle_live_prepare handle_live_commit handle_live_cancel handle_live_reconcile
handle_live-misdirected target handler clock frame h stray =
    elim (Bool-cases (live_frame_targets_collector target frame)) [
      | inl e ↦ absurd (stray (targets-IsAddressed target frame e))
      | inr e ↦ (ground arith, ground arith, ground arith, ground arith)
    ]

number_lt-not_le : (a b : Number) → number_lt a b ≡ true → number_le b a ≡ false
number_lt-not_le (fin a) (fin b) h = ground arith
number_lt-not_le (fin a) infinity h = refl
number_lt-not_le neg_infinity (fin b) h = refl
number_lt-not_le neg_infinity infinity h = refl
number_lt-not_le _ _ h = absurd (ground arith)

valid_future_timestamp-unexpired :
    (clock : Clock) (at : String)
    → valid_future_timestamp clock at ≡ true
    → assert_unexpired clock at ≡ returned tt
unfolding valid_future_timestamp assert_unexpired
valid_future_timestamp-unexpired clock at h =
    ground (arith, number_lt-not_le clock.now (clock.date_parse at))

parse_live_commit_bet_request-future :
    (clock : Clock) (frame : LiveBetFrame) (request : LiveCommitBetRequest)
    → parse_live_commit_bet_request clock frame ≡ some request
    → valid_future_timestamp clock request.expires_at ≡ true
unfolding parse_live_commit_bet_request
parse_live_commit_bet_request-future clock frame request h =
    elim (Option-cases (parse_live_correlation frame)) [
      | inl e ↦ absurd (ground arith)
      | inr (correlation, e) ↦ elim (Option-cases (canonical_odds frame.expected_odds)) [
        | inl e ↦ absurd (ground arith)
        | inr (odds, e) ↦ elim (Option-cases (stake_of frame.stake_vnd)) [
          | inl e ↦ absurd (ground arith)
          | inr (stake, e) ↦ ground arith
        ]
      ]
    ]

-- `new Jun88CmdLiveBetActions(page)`, with what the page gives in the course of a command.
abbrev pub jun88_handler :
    Jun88.Platform
    → String
    → Clock
    → Jun88.PreparePage
    → Jun88.CommitPage
    → LiveBetHandler (Actions Jun88.Jun88Prepared)
jun88_handler platform generation clock prepare_page commit_page = record {
  prepare = Jun88.prepare platform generation clock prepare_page;
  commit = Jun88.commit platform generation clock commit_page;
  cancel = Jun88.cancel platform generation clock;
  reconcile = Jun88.reconcile platform generation clock;
}

-- What a served commit frame is answered with.
abbrev pub commit_response : LiveCommitBetRequest → LiveBetResult → LiveResponse
commit_response request r = record {
  response_type = bet_result;
  correlation = request.correlation;
  prepare_id = some request.prepare_id;
  idempotency_key = some request.idempotency_key;
  payload = bet_payload r;
}

module _ {H : Type 0} where
  handle_live_commit-returned :
      (target : Target) (handler : LiveBetHandler H) (clock : Clock) (frame : LiveBetFrame)
      (request : LiveCommitBetRequest) (h t : H) (r : LiveBetResult)
      → live_frame_targets_collector target frame ≡ true
      → parse_live_commit_bet_request clock frame ≡ some request
      → handler.commit request h ≡ (returned r, t)
      → handle_live_commit target (some handler) clock frame h
        ≡ (some (commit_response request r), t)
  unfolding handle_live_commit call_fresh
  handle_live_commit-returned target handler clock frame request h t r served parsed returns =
      ground (arith, parse_live_commit_bet_request-future clock frame request parsed)

-- A commit frame that is addressed to the stream and that parses now and later is answered, under a
-- new key, with a result that claims no ticket; and the same frame later, whatever the Jun88 page
-- then does, with the same response, and the journal and the slips stay as they are.
pub handle_live_commit_once :
    (target : Target) (platform : Jun88.Platform) (generation : String) (clock later : Clock)
    (prepare_page : Jun88.PreparePage) (page other : Jun88.CommitPage) (frame : LiveBetFrame)
    (request : LiveCommitBetRequest) (s : Actions Jun88.Jun88Prepared)
    → live_frame_targets_collector target frame ≡ true
    → parse_live_commit_bet_request clock frame ≡ some request
    → parse_live_commit_bet_request later frame ≡ some request
    → get request.idempotency_key s.journal ≡ none
    → (r : LiveBetResult) × (t : Actions Jun88.Jun88Prepared) × (handle_live_commit target
          (some (jun88_handler platform generation clock prepare_page page))
          clock
          frame
          s
        ≡ (some (commit_response request r), t))
      × (handle_live_commit target
            (some (jun88_handler platform generation later prepare_page other))
            later
            frame
            t
          ≡ (some (commit_response request r), t))
      × IsTicketless r
handle_live_commit_once target platform generation clock later prepare_page page other frame request
      s served parsed again new =
    let (r, t, first, second, ticketless) =
      commit_once platform generation clock later page other request s
        (valid_future_timestamp-unexpired clock request.expires_at
          (parse_live_commit_bet_request-future clock frame request parsed))
        (valid_future_timestamp-unexpired later request.expires_at
          (parse_live_commit_bet_request-future later frame request again))
        new in
    (
      r,
      t,
      handle_live_commit-returned target (jun88_handler platform generation clock prepare_page page)
          clock frame request s t r served parsed first,
      handle_live_commit-returned target
          (jun88_handler platform generation later prepare_page other) later frame request t t r
          served again second,
      ticketless,
    )
