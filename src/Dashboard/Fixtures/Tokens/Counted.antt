-- ===== src/Dashboard/Fixtures/Tokens/Counted.antt =====
-- The search ends, and each success matches one more right word.
use surebet.Dashboard.Fixtures.Distance.{words_match}
use surebet.Base.Words.{words}
use surebet.Base.{
  map, String, ℕ, zero, suc, ◌+◌, ◌≤◌, ◌<◌, Bool, true, false, ◌≡◌, refl, Option, none, some, List,
  [], ◌∷◌, length, get_elem?, or_else, arith, if◌then◌else◌, All, Bool-cases, Option-cases, inl,
  inr, ap, ◌∙◌,
}
use surebet.Dashboard.Fixtures.Tokens.{
  Matching, matched_at, Search, with_left, try_rights, match_participant_token, match_lefts,
  participant_token_matches, matching_indices, free_rights,
}
use surebet.Dashboard.Fixtures.Tokens.Search.{
  seen, unseen, count_matched, unseen-le, unseen-bound, unseen-cons, Does, Ends, with_left-free,
  after-Ends,
}

try_rights-nil :
    (search : ℕ → Matching → Search) (left : ℕ) (m : Matching)
    → try_rights search left [] m ≡ some (false, m)
unfolding try_rights
try_rights-nil search left m = refl

module _ (search : ℕ → Matching → Search) (left r : ℕ) (rights : List ℕ) (m : Matching) where
  try_rights-seen :
      seen r m ≡ true → try_rights search left (r ∷ rights) m ≡ try_rights search left rights m
  unfolding try_rights
  try_rights-seen e = rw (e, try_rights) refl

  try_rights-free :
      seen r m ≡ false
      → matched_at r m.matched_left_by_right ≡ none
      → try_rights search left (r ∷ rights) m
        ≡ some (true, with_left r left (record m { seen_right = r ∷ m.seen_right }))
  unfolding try_rights
  try_rights-free e free = rw (e, free, try_rights) refl

  try_rights-taken :
      (other : ℕ)
      → seen r m ≡ false
      → matched_at r m.matched_left_by_right ≡ some other
      → try_rights search left (r ∷ rights) m
        ≡ (elim (search other (record m { seen_right = r ∷ m.seen_right })) [
          | none ↦ none
          | some (true, next) ↦ some (true, with_left r left next)
          | some (false, next) ↦ try_rights search left rights next
        ])
  unfolding try_rights
  try_rights-taken other e taken = rw (e, taken, try_rights) refl

module _ (search : ℕ → Matching → Search) (n fuel : ℕ)
    (searches : (other : ℕ) (m : Matching)
      → length m.matched_left_by_right ≡ n
      → unseen 0 n m.seen_right < fuel
      → Ends m (search other m)) where
  try_rights-Ends :
      (left : ℕ) (rights : List ℕ) (m : Matching)
      → All (λ r. r < n) rights
      → length m.matched_left_by_right ≡ n
      → unseen 0 n m.seen_right ≤ fuel
      → Ends m (try_rights search left rights m)
  try_rights-Ends left [] m b sized enough =
      rw (try_rights-nil search left m)
        (record { counted = refl; kept = λ r h. refl; still = λ r h. h; size = refl })
  try_rights-Ends left (r ∷ rights) m (below, b) sized enough = elim (Bool-cases (seen r m)) [
    | inl e ↦
        rw (try_rights-seen search left r rights m e) (try_rights-Ends left rights m b sized enough)
    | inr e ↦ elim (Option-cases (matched_at r m.matched_left_by_right)) [
      | inl free ↦
          rw (try_rights-free search left r rights m e free)
            (with_left-free r left n m e below sized free)
      | inr (other, taken) ↦ rw (try_rights-taken search left r rights m other e taken) (
          after-Ends r left n m e below sized other taken (try_rights search left rights)
            (search other (record m { seen_right = r ∷ m.seen_right }))
            (searches other (record m { seen_right = r ∷ m.seen_right }) sized
              (omega (arith, unseen-cons 0 n r m.seen_right (omega arith) (omega arith) e)))
            (λ next d. try_rights-Ends left rights next b (d.size ∙ sized) (
              omega (
                arith,
                unseen-le 0 n (r ∷ m.seen_right) next.seen_right d.still,
                unseen-cons 0 n r m.seen_right (omega arith) (omega arith) e,
              ))))
    ]
  ]

abbrev InRange : ℕ → List (List ℕ) → Type 0
InRange n adjacency = All (λ rights. All (λ r. r < n) rights) adjacency

InRange-get :
    (n : ℕ) (adjacency : List (List ℕ)) (i : ℕ)
    → InRange n adjacency
    → All (λ r. r < n) (or_else (get_elem? adjacency i) [])
InRange-get n [] i h = tt
InRange-get n (rights ∷ adjacency) zero (h, k) = h
InRange-get n (rights ∷ adjacency) (suc i) (h, k) = InRange-get n adjacency i k

Ends-some :
    (m : Matching) (s : Search)
    → Ends m s
    → (found : Bool) × (n : Matching) × (s ≡ some (found, n)) × Does m found n
Ends-some m none d = elim d [ ]
Ends-some m (some (found, n)) d = (found, n, refl, d)

match_lefts_step {ℓ} :
    {A : Type ℓ} (fuel : ℕ) (adjacency : List (List ℕ)) (left : ℕ) (x : A) (lefts : List A)
    (matched : List (Option ℕ)) (matches : ℕ) (found : Bool) (m : Matching)
    → match_participant_token fuel adjacency left
        (record { matched_left_by_right = matched; seen_right = [] })
      ≡ some (found, m)
    → match_lefts fuel adjacency left (x ∷ lefts) matched matches
      ≡ match_lefts fuel adjacency
          (suc left)
          lefts
          m.matched_left_by_right
          (if found then suc matches else matches)
unfolding match_lefts
match_lefts_step fuel adjacency left x lefts matched matches found m e = rw (e, match_lefts) refl

count-bound : (l : List (Option ℕ)) → count_matched l ≤ length l
unfolding count_matched
count-bound [] = omega arith
count-bound (none ∷ l) = omega (arith, count-bound l)
count-bound (some x ∷ l) = omega (arith, count-bound l)

module _ (n : ℕ) (adjacency : List (List ℕ)) (inside : InRange n adjacency) where
  match-Ends :
      (fuel left : ℕ) (m : Matching)
      → length m.matched_left_by_right ≡ n
      → unseen 0 n m.seen_right < fuel
      → Ends m (match_participant_token fuel adjacency left m)
  unfolding match_participant_token
  match-Ends zero left m sized enough = absurd (omega arith)
  match-Ends (suc fuel) left m sized enough =
      try_rights-Ends (match_participant_token fuel adjacency) n fuel (match-Ends fuel) left
        (or_else (get_elem? adjacency left) []) m (InRange-get n adjacency left inside) sized
        (omega arith)

  match_lefts-Ends {ℓ} :
      {A : Type ℓ} (lefts : List A) (left matches : ℕ) (matched : List (Option ℕ))
      → length matched ≡ n
      → count_matched matched ≡ matches
      → (k : ℕ) × (match_lefts (suc n) adjacency left lefts matched matches ≡ some k)
        × (k ≤ n)
        × (k ≤ matches + length lefts)
  unfolding match_lefts
  match_lefts-Ends [] left matches matched sized counted =
      (matches, refl, omega (arith, count-bound matched), omega arith)
  match_lefts-Ends (x ∷ lefts) left matches matched sized counted =
      step
        (Ends-some _ (match_participant_token (suc n) adjacency left start)
          (match-Ends (suc n) left start sized (omega (arith, unseen-bound 0 n []))))
        (match_lefts-Ends lefts (suc left))
    where
      start : Matching
      start = record { matched_left_by_right = matched; seen_right = [] }

      step :
          ((found : Bool) × (m : Matching) × (match_participant_token (suc n) adjacency left start
              ≡ some (found, m))
            × Does start found m)
          → ((next : ℕ) (l : List (Option ℕ))
              → length l ≡ n
              → count_matched l ≡ next
              → (k : ℕ) × (match_lefts (suc n) adjacency (suc left) lefts l next ≡ some k)
                × (k ≤ n)
                × (k ≤ next + length lefts))
          → (k : ℕ) × (match_lefts (suc n) adjacency left (x ∷ lefts) matched matches ≡ some k)
            × (k ≤ n)
            × (k ≤ matches + length (x ∷ lefts))
      step (true, m, ends, does) rest =
          let (k, e, b, c) =
            rest (suc matches) m.matched_left_by_right (does.size ∙ sized)
              (omega (arith, does.counted)) in
          (
            k,
            match_lefts_step (suc n) adjacency left x lefts matched matches true m ends ∙ e,
            b,
            omega (arith, c),
          )
      step (false, m, ends, does) rest =
          let (k, e, b, c) =
            rest matches m.matched_left_by_right (does.size ∙ sized)
              (omega (arith, does.counted)) in
          (
            k,
            match_lefts_step (suc n) adjacency left x lefts matched matches false m ends ∙ e,
            b,
            omega (arith, c),
          )

indices-InRange :
    (left : String) (index : ℕ) (rights : List String) (n : ℕ)
    → index + length rights ≤ n
    → All (λ r. r < n) (matching_indices left index rights)
unfolding matching_indices
indices-InRange left index [] n h = tt
indices-InRange left index (right ∷ rights) n h =
    choose (words_match left right) (indices-InRange left (suc index) rights n (omega arith))
  where
    choose :
        (b : Bool)
        → All (λ r. r < n) (matching_indices left (suc index) rights)
        → All
            (λ r. r < n)
            (if b
              then index ∷ matching_indices left (suc index) rights
              else matching_indices left (suc index) rights)
    choose true k = (omega arith, k)
    choose false k = k

free-count {ℓ} :
    {A : Type ℓ} (l : List A)
    → (length (free_rights l) ≡ length l) × (count_matched (free_rights l) ≡ 0)
unfolding free_rights count_matched
free-count [] = (refl, refl)
free-count (x ∷ l) = (ap suc (free-count l).0, (free-count l).1)

adjacency-InRange :
    (lefts rights : List String)
    → InRange (length rights) (map (λ left. matching_indices left 0 rights) lefts)
adjacency-InRange [] rights = tt
adjacency-InRange (left ∷ lefts) rights =
    (indices-InRange left 0 rights (length rights) (omega arith), adjacency-InRange lefts rights)

-- The search for the matching words of two names ends, and finds at most as many as either has.
pub participant_token_matches_bounds :
    (left right : String)
    → (k : ℕ) × (participant_token_matches left right ≡ some k)
      × (k ≤ length (words left))
      × (k ≤ length (words right))
unfolding participant_token_matches
participant_token_matches_bounds left right =
    let (k, e, b, c) =
      match_lefts-Ends (length (words right))
        (map (λ l. matching_indices l 0 (words right)) (words left))
        (adjacency-InRange (words left) (words right)) (words left) 0 0 (free_rights (words right))
        (free-count (words right)).0 (free-count (words right)).1 in
    (k, e, omega (arith, c), b)
