-- ===== src/Base/Text.antt =====
-- Texts of JavaScript over the native `String`: `trim`, `length` in UTF-16 units, truth of a text.
use Prim.Native.Nat.{ℕ, ◌+◌}
use Prim.Native.Char.{Char, code}
use Prim.Native.String
use Prim.Native.String.{String}
use mathlib.Core.Bool.{Bool, true, false, not, ◌&&◌, ◌||◌}
use mathlib.Core.List.{List, [], ◌∷◌, reverse}
use text.Mathlib.Text.{◌==◌}
use surebet.Base.Tests.{leb, eqb, if◌then◌else◌}

infixr 66 ◌^^◌
-- Concatenation.
abbrev pub ◌^^◌ : String → String → String
s ^^ t = String.◌++◌ s t

-- The code points that `trim` and `\s` treat as white space.
unfoldable pub is_space : ℕ → Bool
is_space c =
    (leb 9 c && leb c 13)
    || eqb c 32
    || eqb c 160
    || eqb c 5760
    || (leb 8192 c && leb c 8202)
    || eqb c 8232
    || eqb c 8233
    || eqb c 8239
    || eqb c 8287
    || eqb c 12288
    || eqb c 65279

unfoldable pub chars : String → List Char
chars String.[] = []
chars (String.◌∷◌ c s) = c ∷ chars s

unfoldable pub of_chars : List Char → String
of_chars [] = ""
of_chars (c ∷ cs) = String.◌∷◌ c (of_chars cs)

unfoldable pub drop_spaces : List Char → List Char
drop_spaces [] = []
drop_spaces (c ∷ cs) = let rest = drop_spaces cs in if is_space (code c) then rest else c ∷ cs

-- `value.trim()`
unfoldable pub trim : String → String
unfolding is_space chars of_chars drop_spaces
trim s = of_chars (reverse (drop_spaces (reverse (drop_spaces (chars s)))))

-- `value.length`
unfoldable pub utf16_length : String → ℕ
utf16_length String.[] = 0
utf16_length (String.◌∷◌ c s) = (if leb 65536 (code c) then 2 else 1) + utf16_length s

-- A text as a condition: the empty text is false.
abbrev pub truthy : String → Bool
truthy s = not (s == "")

abbrev pub falsy : String → Bool
falsy s = s == ""

-- A code point, an ASCII letter in lower case.
unfoldable pub ascii_lower : ℕ → ℕ
ascii_lower c = if leb b'A' c && leb c b'Z' then c + 32 else c

-- The text begins with the pattern, whatever the case of ASCII letters.
unfoldable pub begins_with : List Char → List Char → Bool
unfolding ascii_lower
begins_with [] cs = true
begins_with (p ∷ ps) [] = false
begins_with (p ∷ ps) (c ∷ cs) =
    let rest = begins_with ps cs in eqb (ascii_lower (code p)) (ascii_lower (code c)) && rest
