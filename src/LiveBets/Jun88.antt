-- ===== src/LiveBets/Jun88.antt =====
-- `Jun88CmdLiveBetActions` of collector/shared/src/bookmakers/jun88-cmd-live-actions.ts. The page
-- is the browser's: what each call on it gives, or the error that it throws, is a parameter.
mod Slip
pub mod Once
use Prim.Native.Char.{Char, code}
use surebet.Base.{
  leb, eqb, all, length, String, Bool, true, false, not, ◌&&◌, ◌||◌, Option, none, some, ◌==◌,
  if◌then◌else◌,
}
use surebet.Base.Outcome.{Outcome, returned, threw, Method, ◌>>=◌, ◌>>◌, pure, lift, catching}
use surebet.Base.Text.{◌^^◌, truthy, chars}
use surebet.JsMap.{JsMap, get, set, delete, empty}
use surebet.Number.{
  Number, whole, zero_number, number_eq, number_lt, number_le, not_multiple, number_times,
  number_round,
}
use surebet.Doubles.{odds_differ}
use surebet.Contracts.Odds.{malay}
use surebet.Contracts.Bets.{
  LiveBetCorrelation, LivePrepareBetRequest, LiveBetPrepared, LivePrepareBetResult, prepared,
  prepare_rejected, LiveCommitBetRequest, LiveBetResult, odds_changed, LiveCancelPreparedBetRequest,
  LiveCancelPreparedBetResult, cancelled, cancel_rejected, LiveReconcileBetRequest,
}
pub use Slip.{
  Jun88Slip, Jun88SlipFields, PreparePage, CommitPage, Platform, Jun88Prepared, valid_provider_ref,
}
use surebet.Clock.{Clock}
use surebet.LiveBets.{live_bet_feature_flags, assert_unexpired}
use surebet.LiveBets.Actions.{
  Actions, PrepareIdFields, prepare_id_fields, reject, same_correlation, finish_with, open_commit,
  reconcile_with,
}

-- `JUN88_VD_TO_VND`
abbrev pub jun88_vd_to_vnd : Number
jun88_vd_to_vnd = whole 1_000

-- `prepared && sameCorrelation(prepared.request, request)`
pub slot_matches : Option Jun88Prepared → LiveBetCorrelation → Bool
slot_matches none correlation = false
slot_matches (some slot) correlation = same_correlation slot.request correlation

module _ (platform : Platform) (session_generation : String) (clock : Clock) where
  -- The object that `prepare` stores.
  prepared_slip :
      LivePrepareBetRequest → Jun88Slip → Number → Number → Number → Number → Jun88Prepared
  prepared_slip request slip raw_odds minimum maximum balance_vnd = record {
    shown = record {
      prepare_id = platform.prepare_digest (prepare_id_fields request session_generation);
      slip_fingerprint = platform.slip_digest (record {
        provider_ref = request.provider_ref;
        team = slip.team;
        handicap = slip.handicap;
        score = slip.score;
        bet_type = slip.bet_type;
        raw_odds = raw_odds;
        minimum_stake = minimum;
        maximum_stake = maximum;
      });
      displayed_odds = raw_odds;
      raw_odds = raw_odds;
      odds_format = malay;
      minimum_stake_vnd = number_round (number_times minimum 1_000);
      maximum_stake_vnd = number_round (number_times maximum 1_000);
      stake_increment_vnd = jun88_vd_to_vnd;
      balance_vnd = balance_vnd;
      session_generation = session_generation;
      observed_at = clock.now_iso;
    };
    request = request;
    stake_unit_vnd = jun88_vd_to_vnd;
  }

  abbrev refuse : String → Method (Actions Jun88Prepared) LivePrepareBetResult
  refuse error = pure (prepare_rejected clock.now_iso error)

  -- The slip's checks, and the store of the prepared slip.
  store_slip :
      PreparePage
      → LivePrepareBetRequest
      → Number
      → Jun88Slip
      → Method (Actions Jun88Prepared) LivePrepareBetResult
  unfolding prepared_slip
  store_slip page request selected slip = elim slip.raw_odds [
    | none ↦ refuse "Jun88 slip did not expose odds and stake limits"
    | some raw_odds ↦ elim slip.minimum_stake [
      | none ↦ refuse "Jun88 slip did not expose odds and stake limits"
      | some minimum ↦ elim slip.maximum_stake [
        | none ↦ refuse "Jun88 slip did not expose odds and stake limits"
        | some maximum ↦
            if odds_differ selected raw_odds
            then refuse "Jun88 clicked odds and sidebar odds do not match"
            else (do
              balance_vnd ← lift page.balance_vnd
              if number_le balance_vnd zero_number
                  then refuse "Jun88 account balance is unavailable"
                  else λ s.
                      let slot = prepared_slip request slip raw_odds minimum maximum balance_vnd in
                      (
                        returned (prepared slot.shown),
                        record s { prepared = set slot.prepare_id slot empty },
                      ))
      ]
    ]
  ]

  -- The `try` block of `prepare`.
  prepare_on_page :
      PreparePage → LivePrepareBetRequest → Method (Actions Jun88Prepared) LivePrepareBetResult
  unfolding store_slip
  prepare_on_page page request = do
    matches ← lift page.identity_matches
    if not matches
        then refuse "Jun88 logical selection does not match provider_ref in the live observer"
        else do
          selected ← lift page.selected_raw_odds
          elim selected [
            | none ↦ refuse "Jun88 selection has no valid Malay odds"
            | some odds ↦ do
              lift page.click_odds
              slip ← lift page.slip
              (if not (platform.to_upper_case slip.odds_type == "MY")
                  then refuse (
                      "Jun88 slip odds format is "
                      ^^ (if truthy slip.odds_type then slip.odds_type else "unknown")
                      ^^ ", expected MY")
                  else store_slip page request odds slip)
          ]

  pub prepare :
      PreparePage → LivePrepareBetRequest → Method (Actions Jun88Prepared) LivePrepareBetResult
  unfolding prepare_on_page
  prepare page request = do
    lift (assert_unexpired clock request.expires_at)
    if not live_bet_feature_flags.enabled
        then refuse "Jun88 live actions are disabled"
        else if not (valid_provider_ref request.provider_ref)
        then refuse "Jun88 provider_ref is invalid"
        else catching (prepare_on_page page request) refuse

  abbrev settle : LiveCommitBetRequest → String → Method (Actions Jun88Prepared) LiveBetResult
  settle request error = finish_with request (reject clock error)

  -- After the slip was read: its odds, and the stake typed into its field.
  pub commit_at_odds :
      CommitPage
      → LiveCommitBetRequest
      → Jun88Prepared
      → Option Number
      → Method (Actions Jun88Prepared) LiveBetResult
  commit_at_odds page request slot none = settle request "Jun88 slip odds are unavailable"
  commit_at_odds page request slot (some raw_odds) =
      let display_stake = platform.display_stake request.stake_vnd slot.stake_unit_vnd in
      if odds_differ raw_odds request.expected_odds
      then finish_with request (odds_changed clock.now_iso request.expected_odds raw_odds)
      else lift (page.type_stake display_stake) >>= λ typed.
          if not (typed == display_stake)
          then settle request "Jun88 stake field did not retain the requested amount"
          else settle request
              "Jun88 submit is blocked until accepted/repriced/rejected network responses are captured"

  -- The `try` block of `commit`.
  pub commit_on_page :
      CommitPage
      → LiveCommitBetRequest
      → Jun88Prepared
      → Method (Actions Jun88Prepared) LiveBetResult
  commit_on_page page request slot =
      lift page.slip >>= λ slip. commit_at_odds page request slot slip.raw_odds

  -- The stake is no multiple of the unit, or outside the prepared limits.
  pub stake_outside : LiveCommitBetRequest → Jun88Prepared → Bool
  stake_outside request slot =
      not_multiple request.stake_vnd slot.stake_unit_vnd
      || number_lt request.stake_vnd slot.minimum_stake_vnd
      || number_lt slot.maximum_stake_vnd request.stake_vnd
      || number_lt slot.balance_vnd request.stake_vnd

  pub commit_prepared :
      CommitPage
      → LiveCommitBetRequest
      → Option Jun88Prepared
      → Method (Actions Jun88Prepared) LiveBetResult
  commit_prepared page request none =
      settle request "Jun88 commit requires the matching prepared slip"
  commit_prepared page request (some slot) =
      if not (same_correlation slot.request request.correlation)
      then settle request "Jun88 commit requires the matching prepared slip"
      else if not live_bet_feature_flags.commit_enabled
      then settle request "Jun88 live commit is disabled"
      else if stake_outside request slot
      then settle request "Jun88 stake is outside the prepared limits or increment"
      else catching (commit_on_page page request slot) (settle request)

  unfoldable pub commit :
      CommitPage → LiveCommitBetRequest → Method (Actions Jun88Prepared) LiveBetResult
  commit page request =
      open_commit clock "Jun88 commit has an unresolved process-local journal entry" request
        λ s. commit_prepared page request (get request.prepare_id s.prepared) s

  -- The clicks of `cancel` on the page ignore their errors.
  pub cancel_slot :
      LiveCancelPreparedBetRequest
      → Option Jun88Prepared
      → Method (Actions Jun88Prepared) LiveCancelPreparedBetResult
  cancel_slot request slot s =
      if slot_matches slot request.correlation
      then (
        returned (record { result = cancelled; observed_at = clock.now_iso; error = none }),
        record s { prepared = delete request.prepare_id s.prepared },
      )
      else (
        returned (record {
          result = cancel_rejected;
          observed_at = clock.now_iso;
          error = some "prepared Jun88 slip was not found";
        }),
        s,
      )

  pub cancel :
      LiveCancelPreparedBetRequest → Method (Actions Jun88Prepared) LiveCancelPreparedBetResult
  unfolding cancel_slot
  cancel request = do
    lift (assert_unexpired clock request.expires_at)
    λ s. cancel_slot request (get request.prepare_id s.prepared) s

  pub reconcile : LiveReconcileBetRequest → Method (Actions Jun88Prepared) LiveBetResult
  reconcile =
      reconcile_with clock
        "Jun88 submit result is unresolved; bookmaker-history reconciliation is required"
        "Jun88 bookmaker-history reconciliation is not implemented; no submit was performed"
