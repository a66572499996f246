-- ===== src/Deltas/Quotes.antt =====
-- When two selections show the same quote, and the test of `buildDeltas`
-- (collector/shared/src/bookmakers/streaming-utils.ts).
use surebet.Base.{String, ◌≡◌, refl, ◌∙◌, ap, Bool, true, false, Option, none, some, arith, eq_iff}
use surebet.Base.Int.{eq_of_eqb}
use surebet.JsMap.{JsMap, get}
use surebet.Number.{Number, fin, infinity, neg_infinity, number_eq}
use surebet.Contracts.Odds.{
  OddsSelection, OddsFormat, option_text_eq, format_eq, bool_eq, indonesian, malay,
}
use surebet.Deltas.{quote_changed, raw_odds_eq}

-- Two selections show the same quote.
pub record SameQuote (s t : OddsSelection) : Type 0 where
  pub odds : s.odds ≡ t.odds
  pub raw_odds : s.raw_odds ≡ t.raw_odds
  pub odds_format : s.odds_format ≡ t.odds_format
  pub provider_ref : s.provider_ref ≡ t.provider_ref
  pub outcome_name : s.outcome_name ≡ t.outcome_name
  pub available_stake : s.available_stake ≡ t.available_stake
  pub suspended : s.suspended ≡ t.suspended

abbrev pub Agrees : Option OddsSelection → Option OddsSelection → Type 0
Agrees none none = Unit
Agrees (some s) (some t) = SameQuote s t
Agrees _ _ = ⊥

-- Two maps show the same quote for every outcome.
abbrev pub ShowsSame : JsMap OddsSelection → JsMap OddsSelection → Type 0
ShowsSame m n = (id : String) → Agrees (get id m) (get id n)

pub SameQuote-refl : (s : OddsSelection) → SameQuote s s
SameQuote-refl s = record {
  odds = refl;
  raw_odds = refl;
  odds_format = refl;
  provider_ref = refl;
  outcome_name = refl;
  available_stake = refl;
  suspended = refl;
}

pub SameQuote-trans : {r s t : OddsSelection} → SameQuote r s → SameQuote s t → SameQuote r t
SameQuote-trans h k = record {
  odds = h.odds ∙ k.odds;
  raw_odds = h.raw_odds ∙ k.raw_odds;
  odds_format = h.odds_format ∙ k.odds_format;
  provider_ref = h.provider_ref ∙ k.provider_ref;
  outcome_name = h.outcome_name ∙ k.outcome_name;
  available_stake = h.available_stake ∙ k.available_stake;
  suspended = h.suspended ∙ k.suspended;
}

Agrees-self : (o : Option OddsSelection) → Agrees o o
Agrees-self none = tt
Agrees-self (some s) = SameQuote-refl s

pub Agrees-refl : (m : JsMap OddsSelection) → ShowsSame m m
Agrees-refl m id = Agrees-self (get id m)

number_eq_sound : (a b : Number) → number_eq a b ≡ true → a ≡ b
number_eq_sound (fin a) (fin b) h = ap fin (eq_of_eqb a b h)
number_eq_sound infinity infinity h = refl
number_eq_sound neg_infinity neg_infinity h = refl
number_eq_sound _ _ h = cc

raw_odds_eq_sound : (a b : Option Number) → raw_odds_eq a b ≡ true → a ≡ b
raw_odds_eq_sound none none h = refl
raw_odds_eq_sound (some a) (some b) h = ap some (number_eq_sound a b h)
raw_odds_eq_sound _ _ h = cc

text_eq_sound : (a b : Option String) → option_text_eq a b ≡ true → a ≡ b
text_eq_sound none none h = refl
text_eq_sound (some a) (some b) h = ap some ((eq_iff a b).0 h)
text_eq_sound _ _ h = cc

format_eq_sound : (a b : Option OddsFormat) → format_eq a b ≡ true → a ≡ b
format_eq_sound none none h = refl
format_eq_sound (some indonesian) (some indonesian) h = refl
format_eq_sound (some malay) (some malay) h = refl
format_eq_sound _ _ h = cc

bool_eq_sound : (a b : Bool) → bool_eq a b ≡ true → a ≡ b
bool_eq_sound a b h = ground arith

-- What the test of `buildDeltas` leaves out has the quote that was there before.
pub unchanged-SameQuote : (prev s : OddsSelection) → quote_changed prev s ≡ false → SameQuote prev s
unfolding quote_changed
unchanged-SameQuote prev s h = record {
  odds = number_eq_sound _ _ (ground arith);
  raw_odds = raw_odds_eq_sound _ _ (ground arith);
  odds_format = format_eq_sound _ _ (ground arith);
  provider_ref = text_eq_sound _ _ (ground arith);
  outcome_name = (eq_iff _ _).0 (ground arith);
  available_stake = number_eq_sound _ _ (ground arith);
  suspended = bool_eq_sound _ _ (ground arith);
}
