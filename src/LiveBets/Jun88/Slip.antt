-- ===== src/LiveBets/Jun88/Slip.antt =====
-- The Jun88 slip, the page's calls and the prepared slip
-- (collector/shared/src/bookmakers/jun88-cmd-live-actions.ts).
use Prim.Native.Char.{Char, code}
use surebet.Base.{leb, eqb, all, length, String, Bool, ◌&&◌, ◌||◌, Option}
use surebet.Base.Outcome.{Outcome}
use surebet.Base.Text.{chars}
use surebet.Number.{Number}
use surebet.Contracts.Bets.{LivePrepareBetRequest, LiveBetPrepared}
use surebet.LiveBets.Actions.{PrepareIdFields}

-- What `readJun88Slip` gives.
pub record Jun88Slip : Type 0 where
  pub odds_type : String
  pub team : String
  pub handicap : String
  pub score : String
  pub bet_type : String
  pub raw_odds : Option Number
  pub minimum_stake : Option Number
  pub maximum_stake : Option Number

-- What the slip fingerprint is hashed from.
pub record Jun88SlipFields : Type 0 where
  pub provider_ref : String
  pub team : String
  pub handicap : String
  pub score : String
  pub bet_type : String
  pub raw_odds : Number
  pub minimum_stake : Number
  pub maximum_stake : Number

-- The calls of `prepare` on the page, in their order.
pub record PreparePage : Type 0 where
  -- `jun88SelectionIdentityMatches`
  pub identity_matches : Outcome Bool
  -- `findJun88Odds` and the odds read from its text
  pub selected_raw_odds : Outcome (Option Number)
  pub click_odds : Outcome (Unit {0})
  -- `findJun88Sidebar` and `readJun88Slip`
  pub slip : Outcome Jun88Slip
  -- `readJun88BalanceVnd`
  pub balance_vnd : Outcome Number

-- The calls of `commit` on the page.
pub record CommitPage : Type 0 where
  pub slip : Outcome Jun88Slip
  -- the stake field's text, without commas and white space, after the text was typed into it
  pub type_stake : String → Outcome String

-- Node's and JavaScript's part: upper case, the SHA-256 digests, and `String(stake / unit)`.
pub record Platform : Type 0 where
  pub to_upper_case : String → String
  pub prepare_digest : PrepareIdFields → String
  pub slip_digest : Jun88SlipFields → String
  pub display_stake : Number → Number → String

pub record Jun88Prepared : Type 0 where
  pub shown : LiveBetPrepared
  pub open shown use *
  pub request : LivePrepareBetRequest
  pub stake_unit_vnd : Number

-- `[A-Za-z0-9_-]`
is_ref_char : Char → Bool
is_ref_char c =
    let n = code c in
    (leb b'A' n && leb n b'Z')
    || (leb b'a' n && leb n b'z')
    || (leb b'0' n && leb n b'9')
    || eqb n b'_'
    || eqb n b'-'

-- `validJun88ProviderRef`
pub valid_provider_ref : String → Bool
unfolding is_ref_char
valid_provider_ref value =
    all is_ref_char (chars value) && leb 1 (length (chars value)) && leb (length (chars value)) 128
