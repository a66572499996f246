-- ===== src/Unicode.antt =====
-- Texts compared and reduced by JavaScript's Unicode functions, which are parameters: canonicalText, which
-- frontend/lib/fixture-identity.ts and collector/shared/src/backend/backend-collector-stream-sink.ts
-- both have, and slugText of the latter.
use Prim.Native.Char.{Char, code, char}
use surebet.Base.{String, Bool, false, List, [], ◌∷◌, if◌then◌else◌}
use surebet.Base.Int.{ℤ, pos, ltb_ℤ}
use surebet.Base.Text.{chars, of_chars, is_space, trim}

-- `normalize("NFKD")`, `replace(/\p{M}/gu, "")`, `toLowerCase()`, `replace(/[^\p{L}\p{N}]+/gu, " ")`
-- and `localeCompare`
pub record Unicode : Type 0 where
  pub nfkd : String → String
  pub without_marks : String → String
  pub to_lower_case : String → String
  pub letters_and_spaces : String → String
  pub locale_compare : String → String → ℤ

-- `left.localeCompare(right) < 0`
abbrev pub locale_before : Unicode → String → String → Bool
locale_before u left right = ltb_ℤ (u.locale_compare left right) (pos 0)

-- `replace(/\s+/g, " ")`: a run of spaces is one
unfoldable pub single_spaces : Bool → List Char → List Char
single_spaces after [] = []
single_spaces after (c ∷ cs) =
    let rest = single_spaces (is_space (code c)) cs in
    if is_space (code c) then (if after then rest else char 32 tt ∷ rest) else c ∷ rest

unfoldable pub canonical_text : Unicode → String → String
unfolding single_spaces chars of_chars
canonical_text u value = trim (
    of_chars (
      single_spaces false
        (chars (u.letters_and_spaces (u.to_lower_case (u.without_marks (u.nfkd value)))))))

-- The spaces of a text, a run of them as one hyphen
unfoldable pub hyphened : Bool → List Char → List Char
hyphened after [] = []
hyphened after (c ∷ cs) =
    let rest = hyphened (is_space (code c)) cs in
    if is_space (code c) then (if after then rest else char 45 tt ∷ rest) else c ∷ rest

unfoldable pub slug_text : Unicode → String → String
unfolding canonical_text hyphened chars of_chars
slug_text u value = of_chars (hyphened false (chars (canonical_text u value)))
