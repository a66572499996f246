-- ===== src/Dashboard/Fixtures/Tokens.antt =====
-- How many words of two team names match: participantTokenMatches and matchParticipantToken of
-- frontend/lib/fixture-identity.ts.
mod Search
pub mod Counted
use surebet.Base.{
  ℕ, zero, suc, ◌+◌, String, Bool, true, false, Option, none, some, List, [], ◌∷◌, ◌++◌, map, any,
  eqb, length, get_elem?, or_else, if◌then◌else◌,
}
use surebet.Base.Words.{words}
use surebet.Dashboard.Fixtures.Distance.{words_match}

-- matchedLeftByRight, where none is -1, and the indices that a search has seen
pub record Matching : Type 0 where
  pub matched_left_by_right : List (Option ℕ)
  pub seen_right : List ℕ

-- `list[index] = value` inside the list
unfoldable pub set_at {ℓ} : {A : Type ℓ} → ℕ → A → List A → List A
set_at index value [] = []
set_at zero value (x ∷ xs) = value ∷ xs
set_at (suc index) value (x ∷ xs) = x ∷ set_at index value xs

-- The left index at a right index; none where it is free or there is no such right index.
unfoldable pub matched_at : ℕ → List (Option ℕ) → Option ℕ
matched_at index l = or_else (get_elem? l index) none

-- The outcome of a search; none where the fuel runs out
abbrev pub Search : Type 0
Search = Option (Bool × Matching)

unfoldable pub with_left : ℕ → ℕ → Matching → Matching
unfolding set_at
with_left right_index left_index m = record m {
  matched_left_by_right = set_at right_index (some left_index) m.matched_left_by_right;
}

-- The loop of matchParticipantToken over the rights that are left; `search` is the recursive call.
unfoldable pub try_rights : (ℕ → Matching → Search) → ℕ → List ℕ → Matching → Search
unfolding with_left matched_at
try_rights search left_index [] m = some (false, m)
try_rights search left_index (right_index ∷ rights) m =
    elim (any (λ r. eqb r right_index) m.seen_right) [
      | true ↦ try_rights search left_index rights m
      | false ↦
          let now_seen = record m { seen_right = right_index ∷ m.seen_right } in
          elim (matched_at right_index m.matched_left_by_right) [
            | none ↦ some (true, with_left right_index left_index now_seen)
            | some other ↦ elim (search other now_seen) [
              | none ↦ none
              | some (true, next) ↦ some (true, with_left right_index left_index next)
              | some (false, next) ↦ try_rights search left_index rights next
            ]
          ]
    ]

unfoldable pub match_participant_token : ℕ → List (List ℕ) → ℕ → Matching → Search
unfolding try_rights
match_participant_token zero adjacency left_index m = none
match_participant_token (suc fuel) adjacency left_index m =
    try_rights (match_participant_token fuel adjacency) left_index
      (or_else (get_elem? adjacency left_index) []) m

-- The indices, from a first one on, of the words that match a word
unfoldable pub matching_indices : String → ℕ → List String → List ℕ
unfolding words_match
matching_indices left index [] = []
matching_indices left index (right ∷ rights) =
    let rest = matching_indices left (suc index) rights in
    if words_match left right then index ∷ rest else rest

unfoldable pub free_rights {ℓ} : {A : Type ℓ} → List A → List (Option ℕ)
free_rights [] = []
free_rights (x ∷ xs) = none ∷ free_rights xs

-- The loop of participantTokenMatches over the left words, from an index on
unfoldable pub match_lefts {ℓ} :
    {A : Type ℓ} → ℕ → List (List ℕ) → ℕ → List A → List (Option ℕ) → ℕ → Option ℕ
unfolding match_participant_token
match_lefts fuel adjacency left_index [] matched matches = some matches
match_lefts fuel adjacency left_index (left ∷ lefts) matched matches =
    elim (match_participant_token fuel adjacency left_index
      (record { matched_left_by_right = matched; seen_right = [] })) [
        | none ↦ none
        | some (found, m) ↦
            match_lefts fuel adjacency (suc left_index) lefts m.matched_left_by_right
              (if found then suc matches else matches)
      ]

-- The fuel is one more than the right words, which a search sees once each.
unfoldable pub participant_token_matches : String → String → Option ℕ
unfolding match_lefts words matching_indices free_rights
participant_token_matches left right =
    let left_tokens = words left in
    let right_tokens = words right in
    let adjacency = map (λ left_token. matching_indices left_token 0 right_tokens) left_tokens in
    match_lefts (suc (length right_tokens)) adjacency 0 left_tokens (free_rights right_tokens) 0
