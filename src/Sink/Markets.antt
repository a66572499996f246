-- ===== src/Sink/Markets.antt =====
-- The markets of a fixture that the stream sink makes from the selections that it holds:
-- `fixtureMarketSnapshotFromSelections` and its helpers of
-- collector/shared/src/backend/backend-collector-stream-sink.ts. The reading of a line's decimals,
-- `normalizeAsianLine`, is a parameter.
pub mod Paired
use Prim.Native.Char.{Char, code}
use surebet.Base.{
  ℕ, zero, suc, ◌+◌, String, Bool, true, false, not, ◌&&◌, ◌||◌, Option, none, some, List, [], ◌∷◌,
  ◌++◌, reverse, map, any, all, filter, leb, ltb, eqb, length, or_else, sort_by, ◌==◌,
  if◌then◌else◌,
}
use surebet.Base.Text.{
  ◌^^◌, chars, of_chars, is_space, drop_spaces, trim, truthy, utf16_length, begins_with,
}
use surebet.Base.Words.{starts_with}
use surebet.JsMap.{JsMap, empty, get, set, values}
use surebet.Number.{Number, zero_number, is_finite, number_eq}
use surebet.Unicode.{Unicode, canonical_text}
use surebet.Contracts.Odds.{
  CollectorSource, OddsSelection, Side, home, away, over, under, FixtureMarketOutcome, Period,
  full_time, first_half, MarketStatus, open_market, suspended_market, FixtureMarket,
  FixtureMarketSnapshot,
}

-- The text, whatever the case of its ASCII letters
unfoldable pub is_text : String → String → Bool
unfolding begins_with chars
is_text pattern s =
    begins_with (chars pattern) (chars s) && eqb (length (chars pattern)) (length (chars s))

unfoldable pub is_detector_market : String → Bool
unfolding is_text trim
is_detector_market market_id =
    let id = trim market_id in
    is_text "hdp-ah" id || is_text "hdp-ah-1st" id || is_text "o-u-ou" id || is_text "o-u-ou-1st" id

unfoldable pub contains_ignoring_case : String → List Char → Bool
unfolding begins_with chars
contains_ignoring_case pattern [] = false
contains_ignoring_case pattern (c ∷ cs) =
    begins_with (chars pattern) (c ∷ cs) || contains_ignoring_case pattern cs

unfoldable pub is_first_half_market : String → Bool
unfolding contains_ignoring_case chars
is_first_half_market market_id =
    let id = chars market_id in
    contains_ignoring_case "1st" id
    || contains_ignoring_case "1h" id
    || contains_ignoring_case "first" id

unfoldable pub is_decimal_digit : Char → Bool
is_decimal_digit c = leb b'0' (code c) && leb (code c) b'9'

unfoldable pub drop_digits : List Char → List Char
unfolding is_decimal_digit
drop_digits [] = []
drop_digits (c ∷ cs) = let rest = drop_digits cs in if is_decimal_digit c then rest else c ∷ cs

unfoldable pub begins_with_digit : List Char → Bool
unfolding is_decimal_digit
begins_with_digit [] = false
begins_with_digit (c ∷ cs) = is_decimal_digit c

-- What follows `(?:\.\d+)?`
unfoldable pub after_fraction : List Char → List Char
unfolding begins_with_digit drop_digits
after_fraction [] = []
after_fraction (c ∷ cs) =
    if eqb (code c) b'.' && begins_with_digit cs then drop_digits cs else c ∷ cs

unfoldable pub drop_sign : List Char → List Char
drop_sign [] = []
drop_sign (c ∷ cs) = if eqb (code c) b'+' || eqb (code c) b'-' then cs else c ∷ cs

-- What follows `[+-]?\d+(?:\.\d+)?`
unfoldable pub after_number : List Char → Option (List Char)
unfolding begins_with_digit drop_sign drop_digits after_fraction
after_number cs =
    if begins_with_digit (drop_sign cs)
    then some (after_fraction (drop_digits (drop_sign cs)))
    else none

-- The whole text is `[+-]?\d+(?:\.\d+)?(?:\/[+-]?\d+(?:\.\d+)?)?`.
unfoldable pub is_line : List Char → Bool
unfolding after_number
is_line cs = elim (after_number cs) [
  | none ↦ false
  | some [] ↦ true
  | some (c ∷ rest) ↦
      eqb (code c) b'/'
      && elim (after_number rest) [ none ↦ false | some [] ↦ true | some (d ∷ more) ↦ false ]
]

-- The first place from where the text is a line to its end
unfoldable pub first_line : List Char → String
unfolding is_line of_chars
first_line [] = ""
first_line (c ∷ cs) =
    let later = first_line cs in if is_line (c ∷ cs) then of_chars (c ∷ cs) else later

unfoldable pub outcome_line : String → String
unfolding first_line drop_spaces chars
outcome_line outcome_name = first_line (reverse (drop_spaces (reverse (chars outcome_name))))

unfoldable pub is_over_under : String → Bool
unfolding starts_with
is_over_under market_id = starts_with "o-u-ou" market_id

-- The text is the word, or begins with it.
unfoldable pub is_named : String → String → Bool
unfolding starts_with
is_named name word = name == word || starts_with (word ^^ " ") name

-- The participants that a name begins with, the longer first
unfoldable pub named_participants : String → String → String → List (String × Side)
unfolding is_named utf16_length
named_participants name home_name away_name =
    sort_by (λ left right. ltb (utf16_length right.0) (utf16_length left.0))
      (filter (λ participant. truthy participant.0 && is_named name participant.0)
        ((home_name, home) ∷ (away_name, away) ∷ []))

unfoldable pub first_side : List (String × Side) → Option Side
first_side [] = none
first_side ((name, side) ∷ rest) = some side

unfoldable pub selection_side : Unicode → OddsSelection → String → String → Option Side
unfolding canonical_text is_over_under is_named named_participants first_side
selection_side u selection home_team away_team =
    let name = canonical_text u selection.outcome_name in
    if is_over_under selection.market_id
    then (if is_named name "over"
        then some over
        else if is_named name "under"
        then some under
        else none)
    else first_side
        (named_participants name (canonical_text u home_team) (canonical_text u away_team))

unfoldable pub outcome_of : OddsSelection → Side → FixtureMarketOutcome
outcome_of selection side = record {
  outcome_id = selection.outcome_id;
  outcome_name = selection.outcome_name;
  side = side;
  odds = selection.odds;
  raw_odds = selection.raw_odds;
  odds_format = selection.odds_format;
  provider_ref = selection.provider_ref;
  available_stake = selection.available_stake;
  suspended = selection.suspended;
}

-- The market under the key, or a new one
unfoldable pub market_under : OddsSelection → String → Option FixtureMarket → FixtureMarket
unfolding is_first_half_market
market_under selection line (some market) = market
market_under selection line none = record {
  market_id = selection.market_id;
  period = if is_first_half_market selection.market_id then first_half else full_time;
  normalized_line = line;
  status = suspended_market;
  outcomes = [];
}

module _ (u : Unicode) (normalize_asian_line : String → String) where
  -- The body of the first loop
  unfoldable pub add_selection :
      OddsSelection → OddsSelection → JsMap FixtureMarket → JsMap FixtureMarket
  unfolding selection_side outcome_line market_under outcome_of
  add_selection metadata selection markets =
      let line = normalize_asian_line (outcome_line selection.outcome_name) in
      let key = selection.market_id ^^ "\0" ^^ line in
      elim (selection_side u selection (or_else metadata.home_team "")
        (or_else metadata.away_team "")) [
          | none ↦ markets
          | some side ↦
              if outcome_line selection.outcome_name == ""
              then markets
              else let market = market_under selection line (get key markets) in
                set key
                  (record market { outcomes = market.outcomes ++ outcome_of selection side ∷ [] })
                  markets
        ]

  unfoldable pub add_selections :
      OddsSelection → List OddsSelection → JsMap FixtureMarket → JsMap FixtureMarket
  unfolding add_selection
  add_selections metadata [] markets = markets
  add_selections metadata (selection ∷ selections) markets =
      add_selections metadata selections (add_selection metadata selection markets)

abbrev pub side_eq : Side → Side → Bool
side_eq home home = true
side_eq away away = true
side_eq over over = true
side_eq under under = true
side_eq _ _ = false

-- `actual.has(side)`
abbrev pub has_side : Side → List FixtureMarketOutcome → Bool
has_side side outcomes = any (λ outcome. side_eq side outcome.side) outcomes

-- `actual.size`
unfoldable pub side_count : List FixtureMarketOutcome → ℕ
side_count outcomes =
    length (filter (λ side. has_side side outcomes) (home ∷ away ∷ over ∷ under ∷ []))

abbrev pub bad_odds : FixtureMarketOutcome → Bool
bad_odds outcome = not (is_finite outcome.odds) || number_eq outcome.odds zero_number

-- `expected.every((side) => actual.has(side))`
unfoldable pub has_both_sides : Bool → List FixtureMarketOutcome → Bool
has_both_sides true outcomes = has_side over outcomes && has_side under outcomes
has_both_sides false outcomes = has_side home outcomes && has_side away outcomes

-- The condition under which the second loop omits a market
unfoldable pub is_incomplete_market : FixtureMarket → Bool
unfolding side_count is_over_under has_both_sides
is_incomplete_market market =
    let outcomes = market.outcomes in
    not (eqb (length outcomes) 2)
    || not (eqb (side_count outcomes) 2)
    || not (has_both_sides (is_over_under market.market_id) outcomes)
    || any bad_odds outcomes

unfoldable pub with_status : FixtureMarket → FixtureMarket
with_status market = record market {
  status =
      if all (λ outcome. not outcome.suspended && not (number_eq outcome.odds zero_number))
        market.outcomes
      then open_market
      else suspended_market;
}

-- The second loop
unfoldable pub complete_markets : List FixtureMarket → List FixtureMarket
unfolding is_incomplete_market with_status
complete_markets [] = []
complete_markets (market ∷ markets) =
    let rest = complete_markets markets in
    if is_incomplete_market market then rest else with_status market ∷ rest

-- The loop of `latestSourceEventID`, from the last selection on
unfoldable pub source_event_id_of : List OddsSelection → String
source_event_id_of [] = ""
source_event_id_of (selection ∷ selections) =
    let rest = source_event_id_of selections in
    if truthy (or_else selection.source_event_id "")
    then or_else selection.source_event_id ""
    else rest

unfoldable pub latest_source_event_id : List OddsSelection → String
unfolding source_event_id_of
latest_source_event_id selections = source_event_id_of (reverse selections)

unfoldable pub fixture_market_snapshot_from_selections :
    Unicode
    → (String → String)
    → CollectorSource
    → OddsSelection
    → List OddsSelection
    → String
    → FixtureMarketSnapshot
unfolding add_selections complete_markets latest_source_event_id
fixture_market_snapshot_from_selections u normalize_asian_line source metadata selections
      observed_at =
    record {
      source = source;
      fixture_id = metadata.fixture_id;
      sport = metadata.sport;
      home_team = metadata.home_team;
      away_team = metadata.away_team;
      league_name = metadata.league_name;
      match_state = metadata.match_state;
      event_start_at = metadata.event_start_at;
      source_event_id =
          if truthy (latest_source_event_id selections)
          then some (latest_source_event_id selections)
          else metadata.source_event_id;
      observed_at = observed_at;
      complete = true;
      markets =
          complete_markets
            (values (add_selections u normalize_asian_line metadata selections empty));
    }
