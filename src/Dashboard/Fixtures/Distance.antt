-- ===== src/Dashboard/Fixtures/Distance.antt =====
-- levenshteinDistance and wordsMatch of frontend/lib/fixture-identity.ts.
pub mod Alignment
use Prim.Native.Char.{Char, code}
use surebet.Base.{
  ℕ, suc, ◌+◌, ◌*◌, min, max, Bool, true, false, ◌||◌, none, some, List, [], ◌∷◌, String, ◌==◌, ltb,
  eqb, length, get_elem?, or_else, if◌then◌else◌, ◌&&◌,
}
use surebet.Base.Text.{chars}
use surebet.Base.Words.{starts_with}

unfoldable pub cost : Char → Char → ℕ
cost a b = if eqb (code a) (code b) then 0 else 1

-- The row 0, 1, … of `length` + 1 entries, from an index on
unfoldable pub indices : ℕ → List Char → List ℕ
indices index [] = index ∷ []
indices index (r ∷ right) = index ∷ indices (suc index) right

-- The inner loop, from a right index on: `last` is `current[rightIndex]`, the list is `previous` from
-- that index on, and the result is `current` after it.
unfoldable pub fill_row : Char → ℕ → List ℕ → List Char → List ℕ
unfolding cost
fill_row l last (diagonal ∷ above ∷ previous) (r ∷ right) =
    let entry = min (min (last + 1) (above + 1)) (diagonal + cost l r) in
    entry ∷ fill_row l entry (above ∷ previous) right
fill_row l last _ _ = []

-- The outer loop, from a left index on
unfoldable pub rows : ℕ → List ℕ → List Char → List Char → List ℕ
unfolding fill_row
rows left_index previous [] right = previous
rows left_index previous (l ∷ left) right =
    rows (suc left_index) (suc left_index ∷ fill_row l (suc left_index) previous right) left right

unfoldable pub levenshtein_distance : List Char → List Char → ℕ
unfolding rows indices
levenshtein_distance left right =
    or_else (get_elem? (rows 0 (indices 0 right) left right) (length right)) 0

-- `1 - distance / denominator > 0.4`, in whole numbers
unfoldable pub words_match : String → String → Bool
unfolding levenshtein_distance
words_match left right =
    let left_chars = chars left in
    let right_chars = chars right in
    let denominator = max (length left_chars) (length right_chars) in
    if left == right
    then true
    else if starts_with "nation-" left || starts_with "nation-" right
    then false
    else if ltb (length left_chars) 4 || ltb (length right_chars) 4
    then false
    else ltb (5 * levenshtein_distance left_chars right_chars) (3 * denominator)
