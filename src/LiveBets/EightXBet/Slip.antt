-- ===== src/LiveBets/EightXBet/Slip.antt =====
-- The 8xbet slip, the page's calls and the prepared slip
-- (collector/shared/src/bookmakers/eightxbet-live-actions.ts).
use surebet.Base.{String, Bool, Option}
use surebet.Base.Outcome.{Outcome}
use surebet.Number.{Number}
use surebet.Contracts.Bets.{LivePrepareBetRequest, LiveBetPrepared}
use surebet.LiveBets.Actions.{PrepareIdFields}

-- What `readEightXBetSlip` gives.
pub record EightXBetSlip : Type 0 where
  pub card_text : String
  pub raw_odds : Option Number
  pub currency : String

-- What the slip fingerprint is hashed from.
pub record EightXBetSlipFields : Type 0 where
  pub provider_ref : String
  pub slip : EightXBetSlip

-- The two groups of `parseProviderRef` that the code reads.
pub record ProviderRef : Type 0 where
  pub fixture_id : String
  pub market : String

-- The calls of `prepare` on the page, in their order.
pub record PreparePage : Type 0 where
  -- `ensureActionPage`, `ensureQuickBetOff`, `findEightXBetOdds`, the click and the card
  pub open_card : Outcome (Unit {0})
  pub slip : Outcome EightXBetSlip
  -- `readEightXBetBalanceVnd`
  pub balance_vnd : Outcome Number

-- The calls of `commit` on the page, in their order.
pub record CommitPage : Type 0 where
  pub is_open : Bool
  -- `ensureQuickBetOff`
  pub quick_bet_off : Outcome (Unit {0})
  pub slip : Outcome EightXBetSlip
  -- `isAcceptPriceState` before the stake is entered
  pub accept_price_before : Outcome Bool
  -- `enterEightXBetStake`
  pub enter_stake : Number → Outcome (Unit {0})
  pub accept_price_after : Outcome Bool
  pub changed_slip : Outcome EightXBetSlip

-- Node's and JavaScript's part: upper case, the match of the provider reference's pattern, and the
-- SHA-256 digests.
pub record Platform : Type 0 where
  pub to_upper_case : String → String
  pub parse_provider_ref : String → Option ProviderRef
  pub prepare_digest : PrepareIdFields → String
  pub slip_digest : EightXBetSlipFields → String

pub record EightXBetPrepared : Type 0 where
  pub shown : LiveBetPrepared
  pub open shown use *
  pub request : LivePrepareBetRequest
