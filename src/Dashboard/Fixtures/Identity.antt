-- ===== src/Dashboard/Fixtures/Identity.antt =====
-- The identity of a fixture and how similar two are: createFixtureIdentity and
-- fixtureIdentitySimilarity of frontend/lib/fixture-identity.ts.
pub mod Laws
use surebet.Base.{
  ℕ, ◌+◌, ◌*◌, max, Bool, String, ◌&&◌, ◌||◌, Option, none, some, ◌==◌, ltb, eqb, length, or_else,
  if◌then◌else◌,
}
use surebet.Base.Text.{◌^^◌, falsy}
use surebet.Base.Words.{words}
use surebet.Dashboard.Fixtures.Names.{canonical_participant_name}
use surebet.Unicode.{Unicode, locale_before}
use surebet.Dashboard.Fixtures.Tokens.{participant_token_matches}

pub record FixtureIdentity : Type 0 where
  pub key : String
  -- `participants[0]` and `participants[1]`
  pub first : String
  pub second : String

unfoldable pub identity_of : String → String → FixtureIdentity
identity_of first second = record {
  key = first ^^ " vs " ^^ second;
  first = first;
  second = second;
}

-- The two canonical names, in the order of the locale
unfoldable pub create_fixture_identity : Unicode → String → String → Option FixtureIdentity
unfolding identity_of
create_fixture_identity u home_team away_team =
    let home = canonical_participant_name u home_team in
    let away = canonical_participant_name u away_team in
    if falsy home || falsy away || home == away
    then none
    else some (if locale_before u away home then identity_of away home else identity_of home away)

unfoldable pub participant_token_count : String → ℕ
participant_token_count value = length (words value)

-- The search always ends, so that the 0 is never taken.
unfoldable pub token_matches : String → String → ℕ
token_matches left right = or_else (participant_token_matches left right) 0

unfoldable pub fixture_orientation_matches : String → String → String → String → ℕ
unfolding token_matches
fixture_orientation_matches left_home left_away right_home right_away =
    let home_matches = token_matches left_home right_home in
    let away_matches = token_matches left_away right_away in
    if ltb 0 home_matches && ltb 0 away_matches then home_matches + away_matches else 0

-- A score: a quotient of whole numbers
pub record Score : Type 0 where
  pub matches : ℕ
  pub denominator : ℕ

unfoldable pub fixture_identity_similarity : FixtureIdentity → FixtureIdentity → Score
unfolding fixture_orientation_matches participant_token_count
fixture_identity_similarity left right =
    let direct = fixture_orientation_matches left.first left.second right.first right.second in
    let reversed = fixture_orientation_matches left.first left.second right.second right.first in
    let matches = max direct reversed in
    let left_token_count =
      participant_token_count left.first + participant_token_count left.second in
    let right_token_count =
      participant_token_count right.first + participant_token_count right.second in
    let denominator = max left_token_count right_token_count in
    if eqb matches 0
    then record { matches = 0; denominator = 1 }
    else if ltb 0 denominator
    then record { matches = matches; denominator = denominator }
    else record { matches = 0; denominator = 1 }

-- `score > 0.4`
unfoldable pub above_threshold : Score → Bool
above_threshold score = ltb (2 * score.denominator) (5 * score.matches)

-- `left > right`
unfoldable pub score_gt : Score → Score → Bool
score_gt left right = ltb (right.matches * left.denominator) (left.matches * right.denominator)
