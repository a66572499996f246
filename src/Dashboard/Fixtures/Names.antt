-- ===== src/Dashboard/Fixtures/Names.antt =====
-- The canonical name of a team: createFixtureIdentity's helpers in frontend/lib/fixture-identity.ts.
-- What the JavaScript engine does with Unicode text is the parameter `Unicode`.
use Prim.Native.Char.{Char, code}
use surebet.Base.{
  String, Bool, true, false, ◌||◌, ◌&&◌, Option, none, some, List, [], ◌∷◌, ◌++◌, reverse, ◌==◌,
  leb, eqb, any, sort_by, if◌then◌else◌,
}
use surebet.Base.Text.{◌^^◌, chars, of_chars, is_space, drop_spaces, trim, truthy, falsy}
use surebet.Base.Words.{words, join, after_prefix}
use surebet.JsMap.SetOf.{elem}
use surebet.Unicode.{Unicode, locale_before, canonical_text}

-- One character of `replace(/\s*\([^)]*\)/gu, "")`: `held`, backwards, is what may belong to a match,
-- spaces at first and all that follows an open parenthesis.
unfoldable pub strip_step : Bool → List Char → Char → Bool × List Char
strip_step true held c = if eqb (code c) b')' then (false, []) else (true, c ∷ held)
strip_step false held c =
    if eqb (code c) b'('
    then (true, c ∷ held)
    else if is_space (code c)
    then (false, c ∷ held)
    else (false, [])

-- What such a character lets out
unfoldable pub strip_output : Bool → List Char → Char → List Char
strip_output true held c = []
strip_output false held c =
    if eqb (code c) b'(' || is_space (code c) then [] else reverse (c ∷ held)

unfoldable pub strip_parentheses : Bool × List Char → List Char → List Char
unfolding strip_step strip_output
strip_parentheses (inside, held) [] = reverse held
strip_parentheses (inside, held) (c ∷ cs) =
    strip_output inside held c ++ strip_parentheses (strip_step inside held c) cs

-- A line terminator, which `.` does not match
unfoldable pub is_line_end : Char → Bool
is_line_end c = eqb (code c) 10 || eqb (code c) 13 || eqb (code c) 8232 || eqb (code c) 8233

-- From the text's end, up to a line terminator: what stands before the first open parenthesis of the
-- last line, backwards, if there is one.
unfoldable pub before_dangling : List Char → Option (List Char)
unfolding is_line_end
before_dangling [] = none
before_dangling (c ∷ cs) =
    let earlier = before_dangling cs in
    if is_line_end c then none else elim earlier [
      | some before ↦ some before
      | none ↦ if eqb (code c) b'(' then some cs else none
    ]

-- `replace(/\s*\(.*$/u, "")`
unfoldable pub strip_dangling : List Char → List Char
unfolding before_dangling drop_spaces
strip_dangling cs = elim (before_dangling (reverse cs)) [
  | none ↦ cs
  | some before ↦ reverse (drop_spaces before)
]

unfoldable pub strip_participant_annotations : String → String
unfolding strip_parentheses strip_dangling chars of_chars
strip_participant_annotations value =
    of_chars (strip_dangling (strip_parentheses (false, []) (chars value)))

-- The table of countries: a code and the names.
abbrev pub national_team_aliases : List (String × List String)
national_team_aliases =
    ("eng", "england" ∷ "anh" ∷ [])
    ∷ ("fra", "france" ∷ "phap" ∷ [])
    ∷ ("deu", "germany" ∷ "duc" ∷ [])
    ∷ ("ita", "italy" ∷ "y" ∷ [])
    ∷ ("esp", "spain" ∷ "tay ban nha" ∷ [])
    ∷ ("prt", "portugal" ∷ "bo dao nha" ∷ [])
    ∷ ("nld", "netherlands" ∷ "holland" ∷ "ha lan" ∷ [])
    ∷ ("bel", "belgium" ∷ "bi" ∷ [])
    ∷ ("che", "switzerland" ∷ "thuy si" ∷ [])
    ∷ ("aut", "austria" ∷ "ao" ∷ [])
    ∷ ("dnk", "denmark" ∷ "dan mach" ∷ [])
    ∷ ("swe", "sweden" ∷ "thuy dien" ∷ [])
    ∷ ("nor", "norway" ∷ "na uy" ∷ [])
    ∷ ("fin", "finland" ∷ "phan lan" ∷ [])
    ∷ ("pol", "poland" ∷ "ba lan" ∷ [])
    ∷ ("cze", "czechia" ∷ "czech republic" ∷ "sec" ∷ [])
    ∷ ("grc", "greece" ∷ "hy lap" ∷ [])
    ∷ ("tur", "turkey" ∷ "turkiye" ∷ "tho nhi ky" ∷ [])
    ∷ ("rus", "russia" ∷ "nga" ∷ [])
    ∷ ("ukr", "ukraine" ∷ "ukraina" ∷ [])
    ∷ ("usa", "united states" ∷ "usa" ∷ "my" ∷ [])
    ∷ ("bra", "brazil" ∷ [])
    ∷ ("arg", "argentina" ∷ [])
    ∷ ("jpn", "japan" ∷ "nhat ban" ∷ [])
    ∷ ("kor", "south korea" ∷ "korea republic" ∷ "han quoc" ∷ [])
    ∷ ("chn", "china" ∷ "china pr" ∷ "trung quoc" ∷ [])
    ∷ ("aus", "australia" ∷ "uc" ∷ [])
    ∷ ("vnm", "vietnam" ∷ "viet nam" ∷ [])
    ∷ []

unfoldable pub is_digit : Char → Bool
is_digit c = leb b'0' (code c) && leb (code c) b'9'

-- `/^u\d{1,2}$/`
unfoldable pub is_age_group : List Char → Bool
unfolding is_digit
is_age_group (u ∷ a ∷ []) = eqb (code u) b'u' && is_digit a
is_age_group (u ∷ a ∷ b ∷ []) = eqb (code u) b'u' && is_digit a && is_digit b
is_age_group _ = false

-- The qualifiers of the tokens, none where a token is no qualifier
unfoldable pub qualifiers : List String → Option (List String)
unfolding is_age_group chars
qualifiers [] = some []
qualifiers (token ∷ tokens) = elim (qualifiers tokens) [
  | none ↦ none
  | some rest ↦
      if token == "w" || token == "woman" || token == "women" || token == "nu"
      then some ("women" ∷ rest)
      else if token == "olympic" || token == "olympics"
      then some ("olympic" ∷ rest)
      else if token == "b" || token == "c" || is_age_group (chars token)
      then some (token ∷ rest)
      else none
]

unfoldable pub canonical_national_team_qualifier : Unicode → String → String
unfolding qualifiers words join
canonical_national_team_qualifier u value = elim (qualifiers (words value)) [
  | none ↦ ""
  | some texts ↦ join " " (sort_by (locale_before u) texts)
]

-- The inner loop of canonicalNationalTeamName: the empty text where no name of the country fits.
unfoldable pub country_name : Unicode → String → List String → String → String
unfolding canonical_national_team_qualifier after_prefix
country_name u code [] value = ""
country_name u code (name ∷ names) value =
    let rest = country_name u code names value in
    if value == name then "nation-" ^^ code else elim (after_prefix (name ^^ " ") value) [
      | none ↦ rest
      | some tail ↦
          let qualifier = canonical_national_team_qualifier u tail in
          if truthy qualifier then "nation-" ^^ code ^^ " " ^^ qualifier else rest
    ]

unfoldable pub first_country : Unicode → List (String × List String) → String → String
unfolding country_name
first_country u [] value = ""
first_country u ((code, names) ∷ countries) value =
    let rest = first_country u countries value in
    let name = country_name u code names value in if truthy name then name else rest

unfoldable pub canonical_national_team_name : Unicode → String → String
unfolding first_country
canonical_national_team_name u value = first_country u national_team_aliases value

unfoldable pub is_generic_club_token : String → Bool
is_generic_club_token value =
    any (λ t. value == t)
      ("af" ∷ "club" ∷ "ec" ∷ "fc" ∷ "fk" ∷ "if" ∷ "sc" ∷ "sk" ∷ "umf" ∷ "team" ∷ [])

unfoldable pub is_numeric_club_prefix : String → Bool
is_numeric_club_prefix value = value == "1"

-- The first loop of trimGenericClubAffixes
unfoldable pub trim_front : List String → List String
unfolding is_generic_club_token is_numeric_club_prefix
trim_front [] = []
trim_front (t ∷ []) = if is_generic_club_token t then [] else t ∷ []
trim_front (t ∷ s ∷ tokens) = elim (is_generic_club_token t) [
  | true ↦ trim_front (s ∷ tokens)
  | false ↦ elim (is_numeric_club_prefix t && is_generic_club_token s) [
    | true ↦ trim_front tokens
    | false ↦ t ∷ s ∷ tokens
  ]
]

-- The second loop, on the tokens backwards
unfoldable pub trim_back : List String → List String
unfolding is_generic_club_token
trim_back [] = []
trim_back (t ∷ tokens) =
    let rest = trim_back tokens in if is_generic_club_token t then rest else t ∷ tokens

unfoldable pub trim_generic_club_affixes : List String → List String
unfolding trim_front trim_back
trim_generic_club_affixes tokens = reverse (trim_back (reverse (trim_front tokens)))

-- The loop of canonicalParticipantTokens, with the tokens that were seen
unfoldable pub distinct_tokens : List String → List String → List String
unfolding is_generic_club_token trim
distinct_tokens seen [] = []
distinct_tokens seen (token ∷ tokens) =
    elim (falsy (trim token) || is_generic_club_token token || elem token seen) [
      | true ↦ distinct_tokens seen tokens
      | false ↦ token ∷ distinct_tokens (token ∷ seen) tokens
    ]

unfoldable pub canonical_participant_tokens : Unicode → List String → List String
unfolding trim_generic_club_affixes distinct_tokens
canonical_participant_tokens u tokens =
    sort_by (locale_before u) (distinct_tokens [] (trim_generic_club_affixes tokens))

unfoldable pub canonical_participant_name : Unicode → String → String
unfolding canonical_text strip_participant_annotations canonical_national_team_name words join
    canonical_participant_tokens
canonical_participant_name u value =
    let canonical = canonical_text u (strip_participant_annotations (u.nfkd value)) in
    let national_team = canonical_national_team_name u canonical in
    if truthy national_team
    then national_team
    else elim (canonical_participant_tokens u (words canonical)) [
      | [] ↦ canonical
      | token ∷ tokens ↦ join " " (token ∷ tokens)
    ]
