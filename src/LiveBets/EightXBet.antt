-- ===== src/LiveBets/EightXBet.antt =====
-- `EightXBetLiveBetActions` of collector/shared/src/bookmakers/eightxbet-live-actions.ts. The page
-- is the browser's: what each call on it gives, or the error that it throws, is a parameter.
mod Slip
pub mod Once
pub mod Malay
use surebet.Base.{
  ℕ, suc, ◌+◌, ◌-◌, ◌*◌, ◌/◌, String, Bool, true, false, not, ◌&&◌, ◌||◌, Option, none, some, ◌==◌,
  leb, if◌then◌else◌,
}
use surebet.Base.Int.{pos, negsuc, sub_ℕ}
use surebet.Base.Outcome.{Outcome, returned, threw, Method, ◌>>=◌, ◌>>◌, pure, lift, catching}
use surebet.JsMap.{JsMap, get, set, delete, empty}
use surebet.Number.{
  Number, fin, whole, unit, zero_number, number_lt, number_le, number_min, number_floor, round_to,
  not_multiple,
}
use surebet.Doubles.{odds_differ}
use surebet.Contracts.Odds.{indonesian}
use surebet.Contracts.Bets.{
  LiveBetCorrelation, LivePrepareBetRequest, LiveBetPrepared, LivePrepareBetResult, prepared,
  prepare_rejected, LiveCommitBetRequest, LiveBetResult, odds_changed, LiveCancelPreparedBetRequest,
  LiveCancelPreparedBetResult, cancelled, cancel_rejected, LiveReconcileBetRequest,
}
pub use Slip.{
  EightXBetSlip, EightXBetSlipFields, ProviderRef, PreparePage, CommitPage, Platform,
  EightXBetPrepared,
}
use surebet.Clock.{Clock}
use surebet.LiveBets.{live_bet_feature_flags, assert_unexpired}
use surebet.LiveBets.Actions.{
  Actions, PrepareIdFields, prepare_id_fields, reject, same_correlation, finish_with, open_commit,
  reconcile_with,
}

-- `indonesianToMalay`: positive odds up to 1 stay, odds above 1 become minus their inverse, both
-- to two decimals.
unfoldable pub indonesian_to_malay : Number → Option Number
indonesian_to_malay (fin (pos n)) =
    if leb n 0
    then none
    else if leb n unit
    then some (round_to 10_000 (fin (pos n)))
    else some (fin (sub_ℕ 0 ((200 * unit + n - 1) / (2 * n) * 10_000)))
indonesian_to_malay _ = none

pub malay_of : Option Number → Option Number
malay_of none = none
malay_of (some raw) = indonesian_to_malay raw

-- `eightXBetProviderMarket`
pub eightxbet_provider_market : String → String
eightxbet_provider_market market_id =
    if market_id == "hdp-ah"
    then "ah"
    else if market_id == "hdp-ah-1st"
    then "ah_1st"
    else if market_id == "o-u-ou"
    then "ou"
    else if market_id == "o-u-ou-1st"
    then "ou_1st"
    else ""

-- `prepared && sameCorrelation(prepared.request, request)`
pub slot_matches : Option EightXBetPrepared → LiveBetCorrelation → Bool
slot_matches none correlation = false
slot_matches (some slot) correlation = same_correlation slot.request correlation

module _ (platform : Platform) (session_generation : String) (clock : Clock) where
  -- The object that `prepare` stores.
  pub prepared_slip :
      LivePrepareBetRequest → EightXBetSlip → Number → Number → Number → EightXBetPrepared
  prepared_slip request slip raw_odds displayed_odds balance_vnd = record {
    shown = record {
      prepare_id = platform.prepare_digest (prepare_id_fields request session_generation);
      slip_fingerprint =
          platform.slip_digest (record { provider_ref = request.provider_ref; slip = slip });
      displayed_odds = displayed_odds;
      raw_odds = raw_odds;
      odds_format = indonesian;
      minimum_stake_vnd = whole 1;
      maximum_stake_vnd = number_min (number_floor balance_vnd) balance_vnd;
      stake_increment_vnd = whole 1;
      balance_vnd = balance_vnd;
      session_generation = session_generation;
      observed_at = clock.now_iso;
    };
    request = request;
  }

  abbrev refuse : String → Method (Actions EightXBetPrepared) LivePrepareBetResult
  refuse error = pure (prepare_rejected clock.now_iso error)

  -- After the balance was read: the displayed odds, and the store of the prepared slip.
  pub store_slip :
      LivePrepareBetRequest
      → EightXBetSlip
      → Number
      → Number
      → Option Number
      → Method (Actions EightXBetPrepared) LivePrepareBetResult
  store_slip request slip raw_odds balance_vnd none =
      if number_le balance_vnd zero_number
      then refuse "8xbet account balance is unavailable"
      else refuse "8xbet displayed odds are invalid"
  store_slip request slip raw_odds balance_vnd (some displayed_odds) =
      if number_le balance_vnd zero_number
      then refuse "8xbet account balance is unavailable"
      else λ s.
          let slot = prepared_slip request slip raw_odds displayed_odds balance_vnd in
          (returned (prepared slot.shown), record s { prepared = set slot.prepare_id slot empty })

  pub prepare_with_odds :
      PreparePage
      → LivePrepareBetRequest
      → EightXBetSlip
      → Option Number
      → Method (Actions EightXBetPrepared) LivePrepareBetResult
  unfolding store_slip
  prepare_with_odds page request slip none = refuse "8xbet bet slip currency or odds is unavailable"
  prepare_with_odds page request slip (some raw_odds) =
      if not (platform.to_upper_case slip.currency == "VND")
      then refuse "8xbet bet slip currency or odds is unavailable"
      else lift page.balance_vnd >>= λ balance_vnd.
          store_slip request slip raw_odds balance_vnd (indonesian_to_malay raw_odds)

  -- The `try` block of `prepare`.
  pub prepare_on_page :
      PreparePage → LivePrepareBetRequest → Method (Actions EightXBetPrepared) LivePrepareBetResult
  unfolding prepare_with_odds
  prepare_on_page page request = do
    lift page.open_card
    slip ← lift page.slip
    prepare_with_odds page request slip slip.raw_odds

  pub prepare_provider :
      PreparePage
      → LivePrepareBetRequest
      → Option ProviderRef
      → Method (Actions EightXBetPrepared) LivePrepareBetResult
  unfolding prepare_on_page
  prepare_provider page request none =
      refuse "8xbet provider_ref is invalid or belongs to another fixture"
  prepare_provider page request (some provider) =
      if not (provider.fixture_id == request.fixture_id)
      then refuse "8xbet provider_ref is invalid or belongs to another fixture"
      else if not (provider.market == eightxbet_provider_market request.market_id)
      then refuse "8xbet provider_ref market does not match the logical market"
      else catching (prepare_on_page page request) refuse

  pub prepare :
      PreparePage → LivePrepareBetRequest → Method (Actions EightXBetPrepared) LivePrepareBetResult
  unfolding prepare_provider
  prepare page request =
      lift (assert_unexpired clock request.expires_at)
      >> (if not live_bet_feature_flags.enabled
          then refuse "8xbet live actions are disabled"
          else prepare_provider page request (platform.parse_provider_ref request.provider_ref))

  abbrev settle : LiveCommitBetRequest → String → Method (Actions EightXBetPrepared) LiveBetResult
  settle request error = finish_with request (reject clock error)

  -- The slip was repriced while the stake was entered.
  pub commit_repriced :
      LiveCommitBetRequest → Option Number → Method (Actions EightXBetPrepared) LiveBetResult
  commit_repriced request none =
      settle request "8xbet repriced but the offered odds could not be read"
  commit_repriced request (some offered) =
      finish_with request (odds_changed clock.now_iso request.expected_odds offered)

  pub commit_stake :
      CommitPage → LiveCommitBetRequest → Method (Actions EightXBetPrepared) LiveBetResult
  commit_stake page request = lift (page.enter_stake request.stake_vnd) >>= λ _.
      lift page.accept_price_after >>= λ repriced.
      if repriced
      then (lift page.changed_slip >>= λ slip. commit_repriced request (malay_of slip.raw_odds))
      else settle request
          "8xbet submit is blocked until accepted/repriced/rejected network responses are captured"

  -- `Math.abs(currentOdds - request.expectedOdds) > 0.001 || await isAcceptPriceState(page)`
  pub odds_moved : CommitPage → LiveCommitBetRequest → Number → Outcome Bool
  odds_moved page request current =
      if odds_differ current request.expected_odds then returned true else page.accept_price_before

  pub commit_at_odds :
      CommitPage
      → LiveCommitBetRequest
      → Option Number
      → Method (Actions EightXBetPrepared) LiveBetResult
  commit_at_odds page request none = settle request "8xbet slip odds are unavailable"
  commit_at_odds page request (some current) = lift (odds_moved page request current) >>= λ moved.
      if moved
      then finish_with request (odds_changed clock.now_iso request.expected_odds current)
      else commit_stake page request

  -- The `try` block of `commit`.
  pub commit_on_page :
      CommitPage → LiveCommitBetRequest → Method (Actions EightXBetPrepared) LiveBetResult
  commit_on_page page request =
      if not page.is_open
      then settle request "8xbet action page is unavailable"
      else (lift page.quick_bet_off >>= λ _.
          lift page.slip >>= λ slip. commit_at_odds page request (malay_of slip.raw_odds))

  -- The stake is no multiple of the increment, or outside the prepared limits.
  pub stake_outside : LiveCommitBetRequest → EightXBetPrepared → Bool
  stake_outside request slot =
      not_multiple request.stake_vnd slot.stake_increment_vnd
      || number_lt request.stake_vnd slot.minimum_stake_vnd
      || number_lt slot.maximum_stake_vnd request.stake_vnd
      || number_lt slot.balance_vnd request.stake_vnd

  pub commit_prepared :
      CommitPage
      → LiveCommitBetRequest
      → Option EightXBetPrepared
      → Method (Actions EightXBetPrepared) LiveBetResult
  commit_prepared page request none =
      settle request "8xbet commit requires the matching prepared slip"
  commit_prepared page request (some slot) =
      if not (same_correlation slot.request request.correlation)
      then settle request "8xbet commit requires the matching prepared slip"
      else if not live_bet_feature_flags.commit_enabled
      then settle request "8xbet live commit is disabled"
      else if stake_outside request slot
      then settle request "8xbet stake is outside the prepared limits or increment"
      else catching (commit_on_page page request) (settle request)

  unfoldable pub commit :
      CommitPage → LiveCommitBetRequest → Method (Actions EightXBetPrepared) LiveBetResult
  commit page request =
      open_commit clock "8xbet commit has an unresolved process-local journal entry" request
        λ s. commit_prepared page request (get request.prepare_id s.prepared) s

  -- `cancel` also closes the action page, and ignores an error of that.
  pub cancel_slot :
      LiveCancelPreparedBetRequest
      → Option EightXBetPrepared
      → Method (Actions EightXBetPrepared) LiveCancelPreparedBetResult
  cancel_slot request slot s =
      if slot_matches slot request.correlation
      then (
        returned (record { result = cancelled; observed_at = clock.now_iso; error = none }),
        record s { prepared = delete request.prepare_id s.prepared },
      )
      else (
        returned (record {
          result = cancel_rejected;
          observed_at = clock.now_iso;
          error = some "prepared 8xbet slip was not found";
        }),
        s,
      )

  pub cancel :
      LiveCancelPreparedBetRequest → Method (Actions EightXBetPrepared) LiveCancelPreparedBetResult
  unfolding cancel_slot
  cancel request = do
    lift (assert_unexpired clock request.expires_at)
    λ s. cancel_slot request (get request.prepare_id s.prepared) s

  pub reconcile : LiveReconcileBetRequest → Method (Actions EightXBetPrepared) LiveBetResult
  reconcile =
      reconcile_with clock
        "8xbet submit result is unresolved; ticket-history reconciliation is required"
        "8xbet ticket-history reconciliation is not implemented; no submit was performed"
