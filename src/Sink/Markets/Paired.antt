-- ===== src/Sink/Markets/Paired.antt =====
-- What the markets of a snapshot are.
use surebet.Base.{
  ℕ, suc, String, Bool, true, false, not, ◌&&◌, ◌||◌, ◌≡◌, refl, List, [], ◌∷◌, All, any, all,
  arith, if◌then◌else◌, length, eqb,
}
use surebet.Number.{number_eq, zero_number}
use surebet.Unicode.{Unicode}
use surebet.JsMap.{values, empty}
use surebet.Contracts.Odds.{
  CollectorSource, OddsSelection, Side, home, away, over, under, FixtureMarketOutcome,
  FixtureMarket, open_market, suspended_market,
}
use surebet.Sink.Markets.{
  is_over_under, has_both_sides, side_count, bad_odds, is_incomplete_market, with_status,
  complete_markets, add_selections, fixture_market_snapshot_from_selections,
}

-- Two sides that bet against each other: over and under, or home and away.
abbrev pub opposite : Bool → Side → Side → Bool
opposite true over under = true
opposite true under over = true
opposite false home away = true
opposite false away home = true
opposite _ _ _ = false

-- Two outcomes, one on each of the two sides of the market, at finite odds other than 0; the market
-- is open exactly when neither is suspended.
pub record IsPaired (market : FixtureMarket) : Type 0 where
  pub first : FixtureMarketOutcome
  pub second : FixtureMarketOutcome
  pub two : market.outcomes ≡ first ∷ second ∷ []
  pub sides : opposite (is_over_under market.market_id) first.side second.side ≡ true
  pub good_first : bad_odds first ≡ false
  pub good_second : bad_odds second ≡ false
  pub status_of :
      market.status
      ≡ (if first.suspended || second.suspended then suspended_market else open_market)

opposite_lem :
    (b : Bool) (x y : FixtureMarketOutcome)
    → has_both_sides b (x ∷ y ∷ []) ≡ true
    → opposite b x.side y.side ≡ true
unfolding has_both_sides
opposite_lem true x y k = ground arith
opposite_lem false x y k = ground arith

or-eq-false : (a b : Bool) → (a || b) ≡ false → (a ≡ false) × (b ≡ false)
or-eq-false a b h = ground arith

not-eq-false : (a : Bool) → not a ≡ false → a ≡ true
not-eq-false a h = ground arith

-- What a market that is not omitted satisfies
kept_parts :
    (market : FixtureMarket)
    → is_incomplete_market market ≡ false
    → (eqb (length market.outcomes) 2 ≡ true)
      × (has_both_sides (is_over_under market.market_id) market.outcomes ≡ true)
      × (any bad_odds market.outcomes ≡ false)
unfolding is_incomplete_market
kept_parts market h =
    let outcomes = market.outcomes in
    let both = not (has_both_sides (is_over_under market.market_id) outcomes) in
    let sized = not (eqb (side_count outcomes) 2) in
    let short = not (eqb (length outcomes) 2) in
    let (h1, bad) = or-eq-false (short || sized || both) (any bad_odds outcomes) h in
    let (h2, all_sides) = or-eq-false (short || sized) both h1 in
    let (few, sides) = or-eq-false short sized h2 in
    (
      not-eq-false (eqb (length outcomes) 2) few,
      not-eq-false (has_both_sides (is_over_under market.market_id) outcomes) all_sides,
      bad,
    )

complete_status :
    (x y : FixtureMarketOutcome) (outcomes : List FixtureMarketOutcome)
    → outcomes ≡ x ∷ y ∷ []
    → bad_odds x ≡ false
    → bad_odds y ≡ false
    → (if all
          (λ outcome. not outcome.suspended && not (number_eq outcome.odds zero_number))
          outcomes
        then open_market
        else suspended_market)
      ≡ (if x.suspended || y.suspended then suspended_market else open_market)
complete_status x y outcomes e p q = rw e (ground arith)

length-two : (n : ℕ) → eqb (suc (suc (suc n))) 2 ≡ true → ⊥
length-two n h = ground arith

paired :
    (market : FixtureMarket) (outcomes : List FixtureMarketOutcome)
    → market.outcomes ≡ outcomes
    → eqb (length outcomes) 2 ≡ true
    → has_both_sides (is_over_under market.market_id) outcomes ≡ true
    → any bad_odds outcomes ≡ false
    → IsPaired (with_status market)
unfolding with_status
paired market [] e h k b = absurd (ground arith)
paired market (x ∷ []) e h k b = absurd (ground arith)
paired market (x ∷ y ∷ z ∷ rest) e h k b = absurd (length-two (length rest) h)
paired market (x ∷ y ∷ []) e h k b =
    let (bad_x, rest) = or-eq-false (bad_odds x) (bad_odds y || false) b in
    let (bad_y, none_left) = or-eq-false (bad_odds y) false rest in
    record {
      first = x;
      second = y;
      two = e;
      sides = opposite_lem (is_over_under market.market_id) x y k;
      good_first = bad_x;
      good_second = bad_y;
      status_of = complete_status x y market.outcomes e bad_x bad_y;
    }

complete_markets-IsPaired : (markets : List FixtureMarket) → All IsPaired (complete_markets markets)
unfolding complete_markets
complete_markets-IsPaired [] = tt
complete_markets-IsPaired (market ∷ markets) =
    choose (is_incomplete_market market) refl (complete_markets-IsPaired markets)
  where
    choose :
        (b : Bool)
        → is_incomplete_market market ≡ b
        → All IsPaired (complete_markets markets)
        → All IsPaired
            (if b then complete_markets markets else with_status market ∷ complete_markets markets)
    choose true e h = h
    choose false e h =
        let (few, both, bad) = kept_parts market e in
        (paired market market.outcomes refl few both bad, h)

-- Every market of a fixture's snapshot has two outcomes on its two sides, over and under or home and
-- away, at finite odds other than 0, and is open exactly when neither is suspended; whatever the
-- selections are.
pub fixture_market_snapshot-IsPaired :
    (u : Unicode) (normalize_asian_line : String → String) (source : CollectorSource)
    (metadata : OddsSelection) (selections : List OddsSelection) (observed_at : String)
    → All IsPaired
        (fixture_market_snapshot_from_selections u normalize_asian_line source metadata selections
          observed_at).markets
unfolding fixture_market_snapshot_from_selections
fixture_market_snapshot-IsPaired u line source metadata selections observed_at =
    complete_markets-IsPaired (values (add_selections u line metadata selections empty))
