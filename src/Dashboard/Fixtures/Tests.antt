-- ===== src/Dashboard/Fixtures/Tests.antt =====
-- Two fixtures of two bookmakers.
use surebet.Base.{
  ℕ, String, ◌≡◌, ◌≤◌, ◌<◌, refl, false, Option, none, some, List, [], ◌∷◌, any, reverse, length,
  ltb, ◌==◌, arith, if◌then◌else◌,
}
use surebet.Base.Int.{pos, negsuc}
use surebet.Base.Text.{chars}
use surebet.Base.Words.{words}
use surebet.JsMap.{empty}
use surebet.Dashboard.Fixtures.Names.{canonical_participant_name}
use surebet.Unicode.{Unicode}
use surebet.Dashboard.Fixtures.Distance.{levenshtein_distance}
use surebet.Dashboard.Fixtures.Distance.Alignment.{Alignment, price, levenshtein_distance-least}
use surebet.Dashboard.Fixtures.Tokens.{participant_token_matches}
use surebet.Dashboard.Fixtures.Tokens.Counted.{participant_token_matches_bounds}
use surebet.Dashboard.Fixtures.Identity.{
  FixtureIdentity, create_fixture_identity, fixture_identity_similarity, identity_of,
}
use surebet.Dashboard.Fixtures.Identity.Laws.{
  create_fixture_identity_comm, fixture_identity_similarity_bounds,
}
use surebet.Dashboard.Fixtures.Index.{Cluster, unique_cluster_key}
use surebet.Dashboard.Fixtures.Index.Suffixes.{unique_cluster_key-unused}

-- Texts without marks in lower case, ordered by their length
abbrev unicode : Unicode
unicode = record {
  nfkd = λ s. s;
  without_marks = λ s. s;
  to_lower_case = λ s. s;
  letters_and_spaces = λ s. s;
  locale_compare = λ s t. if ltb (length (chars s)) (length (chars t)) then negsuc 0 else pos 1;
}

abbrev alignment : Alignment (reverse (chars "ab")) (reverse (chars "b"))
unfolding chars
alignment = Alignment.replace "b" "b" (Alignment.remove "a" Alignment.start)

levenshtein_distance-least_example :
    ((s : Alignment (reverse (chars "ab")) (reverse (chars "b"))) × (price s
        ≡ levenshtein_distance (chars "ab") (chars "b")))
    × (levenshtein_distance (chars "ab") (chars "b") ≤ price alignment)
levenshtein_distance-least_example = levenshtein_distance-least (chars "ab") (chars "b") alignment

participant_token_matches_bounds_example :
    (k : ℕ) × (participant_token_matches "real madrid" "madrid" ≡ some k)
    × (k ≤ length (words "real madrid"))
    × (k ≤ length (words "madrid"))
participant_token_matches_bounds_example = participant_token_matches_bounds "real madrid" "madrid"

abbrev left_fixture : FixtureIdentity
left_fixture = identity_of "chelsea" "real madrid"

abbrev right_fixture : FixtureIdentity
right_fixture = identity_of "madrid" "chelsea"

fixture_identity_similarity_bounds_example :
    ((fixture_identity_similarity left_fixture right_fixture).matches
      ≤ (fixture_identity_similarity left_fixture right_fixture).denominator)
    × (0 < (fixture_identity_similarity left_fixture right_fixture).denominator)
fixture_identity_similarity_bounds_example =
    fixture_identity_similarity_bounds left_fixture right_fixture

create_fixture_identity_comm_example :
    create_fixture_identity unicode "fc chelsea" "madrid (w)"
    ≡ create_fixture_identity unicode "madrid (w)" "fc chelsea"
unfolding chars canonical_participant_name surebet.Base.sort_by
create_fixture_identity_comm_example =
    create_fixture_identity_comm unicode "fc chelsea" "madrid (w)" (λ h. refl)

-- A word in parentheses goes, and a club's affix; a country keeps its qualifiers.
identity_of_names :
    create_fixture_identity unicode "fc chelsea" "anh nu (w)"
    ≡ some (identity_of "chelsea" "nation-eng women")
unfolding create_fixture_identity canonical_participant_name surebet.Base.sort_by
identity_of_names = refl

abbrev clusters : List Cluster
clusters =
    record { key = "a vs b"; representative = left_fixture; source_ids = empty }
    ∷ record { key = "a vs b #2"; representative = left_fixture; source_ids = empty }
    ∷ []

unique_cluster_key-unused_example :
    any (λ c. c.key == unique_cluster_key clusters "a vs b") clusters ≡ false
unique_cluster_key-unused_example = unique_cluster_key-unused clusters "a vs b"

third_key : unique_cluster_key clusters "a vs b" ≡ "a vs b #3"
unfolding unique_cluster_key surebet.JsMap.has surebet.JsMap.set
third_key = refl
