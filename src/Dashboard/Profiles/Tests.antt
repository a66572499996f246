-- ===== src/Dashboard/Profiles/Tests.antt =====
-- Two opportunities, of which one is shown.
use surebet.Base.{◌≡◌, refl, none, List, [], ◌∷◌, filter, length}
use surebet.Base.Int.{pos, negsuc}
use surebet.Number.{Number, fin}
use surebet.Dashboard.Profiles.{filter_opportunities_for_role}
use surebet.Dashboard.Profiles.Counted.{two_below, filter_opportunities_for_role-two_below}

abbrev opportunities : List (List Number)
opportunities =
    (fin (negsuc 949_999) ∷ fin (negsuc 979_999) ∷ [])
    ∷ (fin (negsuc 949_999) ∷ fin (pos 980_000) ∷ [])
    ∷ []

filter_opportunities_for_role-two_below_example :
    filter_opportunities_for_role (λ legs. legs) opportunities none
    ≡ filter (λ legs. two_below legs) opportunities
filter_opportunities_for_role-two_below_example =
    filter_opportunities_for_role-two_below (λ legs. legs) opportunities none

one_shown : length (filter_opportunities_for_role (λ legs. legs) opportunities none) ≡ 1
unfolding filter_opportunities_for_role
one_shown = refl
