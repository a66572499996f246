-- ===== src/Base/Words.antt =====
-- Prefixes of a text, its words, `join`, and a number's decimal text.
use Prim.Native.Char.{Char, code}
use Prim.Native.String.{String}
use mathlib.Core.Bool.{Bool}
use mathlib.Core.Option.{Option, none, some}
use mathlib.Core.List.{List, [], ◌∷◌, reverse}
use surebet.Base.Tests.{eqb, is_some, if◌then◌else◌}
use surebet.Base.Text.{chars, of_chars, ◌^^◌}

-- What follows a prefix
unfoldable pub after_chars : List Char → List Char → Option (List Char)
after_chars [] cs = some cs
after_chars (p ∷ ps) [] = none
after_chars (p ∷ ps) (c ∷ cs) =
    let rest = after_chars ps cs in if eqb (code p) (code c) then rest else none

-- `s.startsWith(prefix)`, then `s.slice(prefix.length)`
unfoldable pub after_prefix : String → String → Option String
unfolding after_chars chars of_chars
after_prefix prefix s = elim (after_chars (chars prefix) (chars s)) [
  | none ↦ none
  | some rest ↦ some (of_chars rest)
]

unfoldable pub starts_with : String → String → Bool
unfolding after_chars chars
starts_with prefix s = is_some (after_chars (chars prefix) (chars s))

-- A word that was read backwards, in front of the words after it
unfoldable pub add_word : List Char → List String → List String
unfolding of_chars
add_word [] words = words
add_word (c ∷ cs) words = of_chars (reverse (c ∷ cs)) ∷ words

unfoldable pub words_from : List Char → List Char → List String
unfolding add_word
words_from held [] = add_word held []
words_from held (c ∷ cs) =
    let rest = words_from (if eqb (code c) 32 then [] else c ∷ held) cs in
    if eqb (code c) 32 then add_word held rest else rest

-- `s.split(" ").filter(Boolean)`
unfoldable pub words : String → List String
unfolding words_from chars
words s = words_from [] (chars s)

-- `texts.join(separator)`
unfoldable pub join : String → List String → String
join separator [] = ""
join separator (s ∷ []) = s
join separator (s ∷ t ∷ texts) = s ^^ separator ^^ join separator (t ∷ texts)
