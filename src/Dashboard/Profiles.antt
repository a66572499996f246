-- ===== src/Dashboard/Profiles.antt =====
-- The profiles of an opportunity's odds, and which opportunities a role sees:
-- frontend/lib/opportunity-visibility.ts, for any type of opportunities with legs that have odds.
pub mod Counted
mod Tests
use surebet.Base.{
  ℕ, suc, String, Bool, true, false, ◌&&◌, Option, List, [], ◌∷◌, filter, leb, eqb, if◌then◌else◌,
}
use surebet.Number.{Number, zero_number, number_lt}

pub data OddsProfile : Type 0 where
  one_negative_one_positive two_negative unknown : OddsProfile

-- The loop over the legs, with the counts of negative and of positive odds
unfoldable pub count_odds : List Number → ℕ → ℕ → ℕ × ℕ
count_odds [] negative positive = (negative, positive)
count_odds (odds ∷ legs) negative positive =
    count_odds legs (if number_lt odds zero_number then suc negative else negative) (
      if number_lt odds zero_number
      then positive
      else if number_lt zero_number odds
      then suc positive
      else positive)

unfoldable pub profile_of : ℕ × ℕ → OddsProfile
profile_of (negative, positive) =
    if leb 2 negative && eqb positive 0
    then two_negative
    else if leb 1 negative && leb 1 positive
    then one_negative_one_positive
    else unknown

unfoldable pub classify_opportunity_odds_profile : List Number → OddsProfile
unfolding count_odds profile_of
classify_opportunity_odds_profile legs = profile_of (count_odds legs 0 0)

-- The role is not looked at.
unfoldable pub is_profile_visible_for_role : OddsProfile → Option String → Bool
is_profile_visible_for_role two_negative role = true
is_profile_visible_for_role _ role = false

unfoldable pub is_opportunity_visible_for_role : List Number → Option String → Bool
unfolding classify_opportunity_odds_profile is_profile_visible_for_role
is_opportunity_visible_for_role legs role =
    is_profile_visible_for_role (classify_opportunity_odds_profile legs) role

unfoldable pub filter_opportunities_for_role {ℓ} :
    {T : Type ℓ} → (T → List Number) → List T → Option String → List T
unfolding is_opportunity_visible_for_role
filter_opportunities_for_role legs opportunities role =
    filter (λ opportunity. is_opportunity_visible_for_role (legs opportunity) role) opportunities
