-- ===== src/Dashboard/Fixtures/Identity/Laws.antt =====
-- The identity of a fixture does not depend on the side of a team, and a similarity is at most 1.
use surebet.Base.{◌+◌, ◌≤◌, ◌<◌, String, false, not, ◌≡◌, ◌==◌, eq_iff, arith}
use surebet.Dashboard.Fixtures.Names.{canonical_participant_name}
use surebet.Unicode.{Unicode, locale_before}
use surebet.Dashboard.Fixtures.Tokens.Counted.{participant_token_matches_bounds}
use surebet.Dashboard.Fixtures.Identity.{
  FixtureIdentity, create_fixture_identity, token_matches, participant_token_count,
  fixture_orientation_matches, fixture_identity_similarity,
}

-- Where the locale puts exactly one of the two canonical names first, if they are distinct, a fixture
-- has one identity, or none, whichever of its teams is at home.
pub create_fixture_identity_comm :
    (u : Unicode) (home away : String)
    → let first = canonical_participant_name u home in
      let second = canonical_participant_name u away in
      ((first == second) ≡ false
        → locale_before u first second ≡ not (locale_before u second first))
      → create_fixture_identity u home away ≡ create_fixture_identity u away home
unfolding create_fixture_identity
create_fixture_identity_comm u home away orders = ground (
  arith,
  eq_iff (canonical_participant_name u home) (canonical_participant_name u away),
  eq_iff (canonical_participant_name u away) (canonical_participant_name u home),
  orders,
)

token_matches_bounds :
    (left right : String)
    → (token_matches left right ≤ participant_token_count left)
      × (token_matches left right ≤ participant_token_count right)
unfolding token_matches participant_token_count
token_matches_bounds left right =
    let (k, e, b, c) = participant_token_matches_bounds left right in rw e (b, c)

orientation_bounds :
    (a b c d : String)
    → (fixture_orientation_matches a b c d ≤ participant_token_count a + participant_token_count b)
      × (fixture_orientation_matches a b c d
          ≤ participant_token_count c + participant_token_count d)
unfolding fixture_orientation_matches
orientation_bounds a b c d = ground (arith, token_matches_bounds a c, token_matches_bounds b d)

-- The similarity of two identities is a quotient of at most 1.
pub fixture_identity_similarity_bounds :
    (left right : FixtureIdentity)
    → ((fixture_identity_similarity left right).matches
        ≤ (fixture_identity_similarity left right).denominator)
      × (0 < (fixture_identity_similarity left right).denominator)
unfolding fixture_identity_similarity
fixture_identity_similarity_bounds left right = ground (
  arith,
  orientation_bounds left.first left.second right.first right.second,
  orientation_bounds left.first left.second right.second right.first,
)
