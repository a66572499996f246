-- ===== src/Sink/Requests.antt =====
-- The frames that the backend sends, and their parsers
-- (collector/shared/src/backend/backend-collector-stream-sink.ts).

use surebet.Base.{ℕ, String, Bool, not, ◌&&◌, ◌||◌, Option, none, some, ◌==◌, leb, if◌then◌else◌}
use surebet.Base.Int.{negsuc}
use surebet.Base.Text.{trim, utf16_length, falsy, chars, begins_with}
use surebet.Clock.{Clock}
use surebet.Number.{
  Number, fin, whole, zero_number, is_finite, number_eq, number_le, number_lt, is_safe_integer,
}
use surebet.Contracts.Odds.{OddsFormat, indonesian, malay}
use surebet.Contracts.Bets.{
  LiveBetCorrelation, LivePrepareBetRequest, LiveCommitBetRequest, LiveCancelPreparedBetRequest,
  LiveReconcileBetRequest,
}

-- A property of a frame that `JSON.parse` gave: missing, a text, a number, or something else.
pub data Field : Type 0 where
  missing other : Field
  text : String → Field
  number : Number → Field

pub record SimulateBetFrame : Type 0 where
  pub session_id : Field
  pub request_id : Field
  pub action_id : Field
  pub opportunity_id : Field
  pub leg_id : Field
  pub sequence : Field
  pub fixture_id : Field
  pub market_id : Field
  pub outcome_id : Field
  pub expected_odds : Field
  pub stake_vnd : Field
  pub expires_at : Field
  pub timeout_ms : Field
  pub idempotency_key : Field

pub record FrameSource : Type 0 where
  pub collector_id : Field
  pub bookmaker_id : Field
  pub lobby_id : Field

pub record LiveBetFrame : Type 0 where
  pub protocol_version : Field
  pub session_id : Field
  pub request_id : Field
  pub action_id : Field
  pub attempt_id : Field
  pub opportunity_id : Field
  pub leg_id : Field
  pub account_id : Field
  pub source : Option FrameSource
  pub fixture_id : Field
  pub market_id : Field
  pub outcome_id : Field
  pub provider_ref : Field
  pub expected_odds : Field
  pub expected_raw_odds : Field
  pub odds_format : Field
  pub quote_revision : Field
  pub prepare_id : Field
  pub idempotency_key : Field
  pub stake_vnd : Field
  pub expires_at : Field

-- `typeof value === "string" ? value.trim() : ""`
abbrev pub clean_text : Field → String
clean_text (text s) = trim s
clean_text _ = ""

-- `cleanLiveString`
unfoldable pub clean_live_string : ℕ → Field → String
clean_live_string maximum_length value =
    if leb (utf16_length (clean_text value)) maximum_length then clean_text value else ""

pub valid_odds : Number → Bool
valid_odds value =
    is_finite value
    && not (number_eq value zero_number)
    && number_le (fin (negsuc 999_999)) value
    && number_le value (whole 1)

-- The number that `validCanonicalOdds` lets through.
unfoldable pub canonical_odds : Field → Option Number
unfolding valid_odds
canonical_odds (number n) = if valid_odds n then some n else none
canonical_odds _ = none

-- `expected_raw_odds` may be missing; given, it is finite and not 0.
pub raw_odds_of : Field → Option (Option Number)
raw_odds_of missing = some none
raw_odds_of (number n) =
    if is_finite n && not (number_eq n zero_number) then some (some n) else none
raw_odds_of _ = none

-- A safe integer above 0.
unfoldable pub stake_of : Field → Option Number
stake_of (number n) = if is_safe_integer n && not (number_le n zero_number) then some n else none
stake_of _ = none

pub odds_format_of : Field → Option OddsFormat
odds_format_of (text s) =
    if s == "malay" then some malay else if s == "indonesian" then some indonesian else none
odds_format_of _ = none

unfoldable pub valid_future_timestamp : Clock → String → Bool
valid_future_timestamp clock value =
    is_finite (clock.date_parse value) && number_lt clock.now (clock.date_parse value)

-- `/^(?:javascript|data):/i`
pub is_script_ref : String → Bool
is_script_ref value =
    begins_with (chars "javascript:") (chars value) || begins_with (chars "data:") (chars value)

unfoldable pub parse_live_correlation : LiveBetFrame → Option LiveBetCorrelation
parse_live_correlation frame =
    if falsy (clean_live_string 512 frame.request_id)
      || falsy (clean_live_string 512 frame.action_id)
      || falsy (clean_live_string 512 frame.attempt_id)
      || falsy (clean_live_string 512 frame.opportunity_id)
      || falsy (clean_live_string 512 frame.leg_id)
    then none
    else some (record {
      request_id = clean_live_string 512 frame.request_id;
      action_id = clean_live_string 512 frame.action_id;
      attempt_id = clean_live_string 512 frame.attempt_id;
      opportunity_id = clean_live_string 512 frame.opportunity_id;
      leg_id = clean_live_string 512 frame.leg_id;
    })

-- `text || undefined`
pub text_or_none : String → Option String
text_or_none s = if falsy s then none else some s

pub parse_live_prepare_bet_request : Clock → LiveBetFrame → Option LivePrepareBetRequest
parse_live_prepare_bet_request clock frame = elim (parse_live_correlation frame) [
  | none ↦ none
  | some correlation ↦ elim (odds_format_of frame.odds_format) [
    | none ↦ none
    | some odds_format ↦ elim (canonical_odds frame.expected_odds) [
      | none ↦ none
      | some expected_odds ↦ elim (raw_odds_of frame.expected_raw_odds) [
        | none ↦ none
        | some expected_raw_odds ↦
            if falsy (clean_live_string 512 frame.fixture_id)
              || falsy (clean_live_string 512 frame.market_id)
              || falsy (clean_live_string 512 frame.outcome_id)
              || falsy (clean_live_string 256 frame.provider_ref)
              || is_script_ref (clean_live_string 256 frame.provider_ref)
              || not (valid_future_timestamp clock (clean_live_string 512 frame.expires_at))
            then none
            else some (record {
              correlation = correlation;
              fixture_id = clean_live_string 512 frame.fixture_id;
              market_id = clean_live_string 512 frame.market_id;
              outcome_id = clean_live_string 512 frame.outcome_id;
              provider_ref = clean_live_string 256 frame.provider_ref;
              expected_odds = expected_odds;
              expected_raw_odds = expected_raw_odds;
              odds_format = odds_format;
              quote_revision = text_or_none (clean_live_string 256 frame.quote_revision);
              expires_at = clean_live_string 512 frame.expires_at;
            })
      ]
    ]
  ]
]

unfoldable pub parse_live_commit_bet_request : Clock → LiveBetFrame → Option LiveCommitBetRequest
parse_live_commit_bet_request clock frame = elim (parse_live_correlation frame) [
  | none ↦ none
  | some correlation ↦ elim (canonical_odds frame.expected_odds) [
    | none ↦ none
    | some expected_odds ↦ elim (stake_of frame.stake_vnd) [
      | none ↦ none
      | some stake_vnd ↦
          if falsy (clean_live_string 256 frame.prepare_id)
            || falsy (clean_live_string 256 frame.idempotency_key)
            || not (valid_future_timestamp clock (clean_live_string 512 frame.expires_at))
          then none
          else some (record {
            correlation = correlation;
            prepare_id = clean_live_string 256 frame.prepare_id;
            idempotency_key = clean_live_string 256 frame.idempotency_key;
            stake_vnd = stake_vnd;
            expected_odds = expected_odds;
            expires_at = clean_live_string 512 frame.expires_at;
          })
    ]
  ]
]

pub parse_live_cancel_prepared_bet_request :
    Clock → LiveBetFrame → Option LiveCancelPreparedBetRequest
parse_live_cancel_prepared_bet_request clock frame = elim (parse_live_correlation frame) [
  | none ↦ none
  | some correlation ↦
      if falsy (clean_live_string 256 frame.prepare_id)
        || not (valid_future_timestamp clock (clean_live_string 512 frame.expires_at))
      then none
      else some (record {
        correlation = correlation;
        prepare_id = clean_live_string 256 frame.prepare_id;
        expires_at = clean_live_string 512 frame.expires_at;
      })
]

pub parse_live_reconcile_bet_request : Clock → LiveBetFrame → Option LiveReconcileBetRequest
parse_live_reconcile_bet_request clock frame = elim (parse_live_correlation frame) [
  | none ↦ none
  | some correlation ↦
      if falsy (clean_live_string 256 frame.idempotency_key)
        || not (valid_future_timestamp clock (clean_live_string 512 frame.expires_at))
      then none
      else some (record {
        correlation = correlation;
        idempotency_key = clean_live_string 256 frame.idempotency_key;
        expires_at = clean_live_string 512 frame.expires_at;
      })
]
