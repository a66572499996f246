-- ===== src/Number.antt =====
-- A JavaScript number: a multiple of one millionth, or one of the values that are not finite. The
-- program's odds, stakes, balances and times have at most six decimals; arithmetic is exact here, as
-- on whole numbers below 2 ^ 53. Doubles is the arithmetic that rounds.
use surebet.Base.{
  ℕ, suc, ◌-◌, ◌||◌, ◌+◌, ◌*◌, ◌%◌, ◌/◌, ◌≡◌, refl, Bool, true, false, not, ◌&&◌, leb, eqb,
  if◌then◌else◌,
}
use surebet.Base.Int.{ℤ, pos, negsuc, magnitude, sub_ℕ, ◌+ℤ◌, ◌-ℤ◌, ltb_ℤ, leb_ℤ, eqb_ℤ, eqb_self}

pub data Number : Type 0 where
  -- so many millionths
  fin : ℤ → Number
  nan infinity neg_infinity : Number

abbrev pub unit : ℕ
unit = 1_000_000

-- A whole number.
abbrev pub whole : ℕ → Number
whole n = fin (pos (n * unit))

abbrev pub zero_number : Number
zero_number = fin (pos 0)

-- `Number.isFinite`
abbrev pub is_finite : Number → Bool
is_finite (fin a) = true
is_finite _ = false

-- `a === b`, false at NaN
abbrev pub number_eq : Number → Number → Bool
number_eq (fin a) (fin b) = eqb_ℤ a b
number_eq infinity infinity = true
number_eq neg_infinity neg_infinity = true
number_eq _ _ = false

-- `a < b`
abbrev pub number_lt : Number → Number → Bool
number_lt (fin a) (fin b) = ltb_ℤ a b
number_lt (fin a) infinity = true
number_lt neg_infinity (fin b) = true
number_lt neg_infinity infinity = true
number_lt _ _ = false

-- `a <= b`
abbrev pub number_le : Number → Number → Bool
number_le (fin a) (fin b) = leb_ℤ a b
number_le (fin a) infinity = true
number_le infinity infinity = true
number_le neg_infinity (fin b) = true
number_le neg_infinity infinity = true
number_le neg_infinity neg_infinity = true
number_le _ _ = false

-- `a - b`
unfoldable pub number_sub : Number → Number → Number
number_sub (fin a) (fin b) = fin (a -ℤ b)
number_sub (fin a) infinity = neg_infinity
number_sub (fin a) neg_infinity = infinity
number_sub infinity (fin b) = infinity
number_sub infinity neg_infinity = infinity
number_sub neg_infinity (fin b) = neg_infinity
number_sub neg_infinity infinity = neg_infinity
number_sub _ _ = nan

-- `a + b`
unfoldable pub number_plus : Number → Number → Number
number_plus (fin a) (fin b) = fin (a +ℤ b)
number_plus (fin a) b = b
number_plus nan b = nan
number_plus infinity nan = nan
number_plus infinity neg_infinity = nan
number_plus infinity b = infinity
number_plus neg_infinity nan = nan
number_plus neg_infinity infinity = nan
number_plus neg_infinity b = neg_infinity

-- Two numbers with the same JSON text: what is not finite is written `null`.
abbrev pub json_number_eq : Number → Number → Bool
json_number_eq (fin a) (fin b) = eqb_ℤ a b
json_number_eq (fin a) b = false
json_number_eq a (fin b) = false
json_number_eq a b = true

-- `Math.abs`
unfoldable pub number_abs : Number → Number
number_abs (fin a) = fin (pos (magnitude a))
number_abs neg_infinity = infinity
number_abs a = a

-- `Number.isSafeInteger`: a whole number of at most 2 ^ 53 - 1 in size.
unfoldable pub is_safe_integer : Number → Bool
is_safe_integer (fin a) =
    eqb (magnitude a % unit) 0 && leb (magnitude a / unit) 9_007_199_254_740_991
is_safe_integer _ = false

-- `Math.min` and `Math.max` of two numbers
unfoldable pub number_min : Number → Number → Number
number_min nan b = nan
number_min a nan = nan
number_min a b = if number_lt b a then b else a

unfoldable pub number_max : Number → Number → Number
number_max nan b = nan
number_max a nan = nan
number_max a b = if number_lt a b then b else a

-- `value || fallback` on numbers: zero and NaN are false.
unfoldable pub number_or : Number → Number → Number
number_or nan d = d
number_or a d = if number_eq a zero_number then d else a

-- `a % b !== 0`
unfoldable pub not_multiple : Number → Number → Bool
not_multiple (fin a) (fin b) = eqb (magnitude b) 0 || not (eqb (magnitude a % magnitude b) 0)
not_multiple (fin a) nan = true
not_multiple (fin a) _ = not (eqb (magnitude a) 0)
not_multiple _ _ = true

-- A number times a whole number that is not 0.
unfoldable pub number_times : Number → ℕ → Number
number_times (fin (pos n)) k = fin (pos (n * k))
number_times (fin (negsuc n)) k = fin (sub_ℕ 0 (suc n * k))
number_times a k = a

-- The nearest multiple of `step` millionths, a half rounded up.
unfoldable pub round_to : ℕ → Number → Number
round_to step (fin (pos n)) = fin (pos ((n + step / 2) / step * step))
round_to step (fin (negsuc n)) = fin (sub_ℕ 0 ((suc n + (step - 1) / 2) / step * step))
round_to step a = a

-- `Math.round` and `Math.floor`
abbrev pub number_round : Number → Number
number_round a = round_to unit a

unfoldable pub number_floor : Number → Number
number_floor (fin (pos n)) = fin (pos (n / unit * unit))
number_floor (fin (negsuc n)) = fin (sub_ℕ 0 ((suc n + (unit - 1)) / unit * unit))
number_floor a = a

pub number_eq_self : (a : Number) → is_finite a ≡ true → number_eq a a ≡ true
number_eq_self (fin a) h = eqb_self a
number_eq_self nan h = h
number_eq_self infinity h = refl
number_eq_self neg_infinity h = refl

pub json_number_eq_self : (a : Number) → json_number_eq a a ≡ true
json_number_eq_self (fin a) = eqb_self a
json_number_eq_self nan = refl
json_number_eq_self infinity = refl
json_number_eq_self neg_infinity = refl
