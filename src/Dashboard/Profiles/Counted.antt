-- ===== src/Dashboard/Profiles/Counted.antt =====
-- Which opportunities are shown, by counts over their legs.
use surebet.Base.{
  ℕ, suc, ◌+◌, String, Bool, true, false, not, ◌&&◌, ◌≡◌, refl, ap, ◌∙◌, Option, List, [], ◌∷◌,
  filter, any, length, leb, eqb, arith, if◌then◌else◌,
}
use surebet.Number.{Number, fin, nan, infinity, neg_infinity, zero_number, number_lt}
use surebet.Base.Int.{pos, negsuc}
use surebet.Dashboard.Profiles.{
  one_negative_one_positive, two_negative, unknown, count_odds, profile_of,
  classify_opportunity_odds_profile, is_profile_visible_for_role, is_opportunity_visible_for_role,
  filter_opportunities_for_role,
}

abbrev pub negative : Number → Bool
negative odds = number_lt odds zero_number

abbrev pub positive : Number → Bool
positive odds = number_lt zero_number odds

negative-positive : (odds : Number) → negative odds ≡ true → positive odds ≡ false
negative-positive (fin (pos n)) h = ground arith
negative-positive (fin (negsuc n)) h = ground arith
negative-positive nan h = ground arith
negative-positive infinity h = ground arith
negative-positive neg_infinity h = ground arith

pair_eq : {a b c d : ℕ} → a ≡ c → b ≡ d → ◌≡◌ {A = ℕ × ℕ} (a, b) (c, d)
pair_eq e f i = (e i, f i)

-- One leg of the loop, `b` for negative odds and `c` for positive ones
count_leg :
    (b c : Bool) (odds : Number) (legs negatives positives : List Number)
    → (b ≡ true → c ≡ false)
    → ((n p : ℕ) → count_odds legs n p ≡ (n + length negatives, p + length positives))
    → (n p : ℕ)
    → count_odds legs (if b then suc n else n) (if b then p else if c then suc p else p) ≡ (
      n + length (if b then odds ∷ negatives else negatives),
      p + length (if c then odds ∷ positives else positives),
    )
count_leg true true odds legs ns ps apart rest n p = absurd (ground (arith, apart refl))
count_leg true false odds legs ns ps apart rest n p = rest (suc n) p ∙ pair_eq (omega arith) refl
count_leg false true odds legs ns ps apart rest n p = rest n (suc p) ∙ pair_eq refl (omega arith)
count_leg false false odds legs ns ps apart rest n p = rest n p

-- The counts of the loop
count_odds-filter :
    (legs : List Number) (n p : ℕ)
    → count_odds legs n p ≡ (n + length (filter negative legs), p + length (filter positive legs))
unfolding count_odds
count_odds-filter [] n p = pair_eq (omega arith) (omega arith)
count_odds-filter (odds ∷ legs) n p =
    count_leg (negative odds) (positive odds) odds legs (filter negative legs)
      (filter positive legs) (negative-positive odds) (count_odds-filter legs) n p

counts :
    (legs : List Number)
    → count_odds legs 0 0 ≡ (length (filter negative legs), length (filter positive legs))
counts legs = count_odds-filter legs 0 0 ∙ pair_eq (omega arith) (omega arith)

-- No leg is positive exactly when none is counted.
any-filter : (legs : List Number) → eqb (length (filter positive legs)) 0 ≡ not (any positive legs)
any-filter [] = refl
any-filter (odds ∷ legs) = ground (arith, any-filter legs)

visible_profile :
    (a b c : Bool) (role : Option String)
    → is_profile_visible_for_role
        (if a && b then two_negative else if c then one_negative_one_positive else unknown)
        role
      ≡ (a && b)
unfolding is_profile_visible_for_role
visible_profile true true c role = refl
visible_profile true false true role = refl
visible_profile true false false role = refl
visible_profile false b true role = refl
visible_profile false b false role = refl

-- Two legs at least with odds below 0, and none with odds above 0
abbrev pub two_below : List Number → Bool
two_below legs = leb 2 (length (filter negative legs)) && not (any positive legs)

is_visible-two_below :
    (legs : List Number) (role : Option String)
    → is_opportunity_visible_for_role legs role ≡ two_below legs
unfolding is_opportunity_visible_for_role classify_opportunity_odds_profile profile_of
is_visible-two_below legs role = rw (counts legs) (
    visible_profile (leb 2 (length (filter negative legs))) (eqb (length (filter positive legs)) 0)
      (leb 1 (length (filter negative legs)) && leb 1 (length (filter positive legs))) role
    ∙ ap (λ b. leb 2 (length (filter negative legs)) && b) (any-filter legs))

-- Whatever the role is, the opportunities that are shown are those with two legs or more at odds
-- below 0 and no leg at odds above 0, in their order.
pub filter_opportunities_for_role-two_below {ℓ} :
    {T : Type ℓ} (legs : T → List Number) (opportunities : List T) (role : Option String)
    → filter_opportunities_for_role legs opportunities role
      ≡ filter (λ opportunity. two_below (legs opportunity)) opportunities
unfolding filter_opportunities_for_role
filter_opportunities_for_role-two_below legs [] role = refl
filter_opportunities_for_role-two_below legs (o ∷ opportunities) role =
    rw (is_visible-two_below (legs o) role) (
      ap (λ rest. if two_below (legs o) then o ∷ rest else rest)
        (filter_opportunities_for_role-two_below legs opportunities role))
