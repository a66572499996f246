-- ===== src/Dashboard/Fixtures/Tokens/Search.antt =====
-- What one search for a right word does to the matching.
use surebet.Base.{
  ℕ, zero, suc, ◌+◌, ◌≤◌, ◌<◌, Bool, true, false, ◌≡◌, refl, Option, none, some, List, [], ◌∷◌, any,
  eqb, length, arith, if◌then◌else◌, is_some, Bool-cases, inl, inr, ap, ◌∙◌,
}
use surebet.Dashboard.Fixtures.Tokens.{Matching, set_at, matched_at, Search, with_left}

abbrev pub seen : ℕ → Matching → Bool
seen r m = any (λ s. eqb s r) m.seen_right

-- How many of so many right words, from an index on, a search has not seen
unfoldable pub unseen : ℕ → ℕ → List ℕ → ℕ
unseen index zero s = 0
unseen index (suc n) s =
    let rest = unseen (suc index) n s in if any (λ i. eqb i index) s then rest else suc rest

-- The right words that are matched
unfoldable pub count_matched : List (Option ℕ) → ℕ
count_matched [] = 0
count_matched (none ∷ l) = count_matched l
count_matched (some x ∷ l) = suc (count_matched l)

-- What a search that began at `m` does: it ends, a success matches one more right word and a failure
-- changes none, what was seen stays seen and keeps its left word, and all right words stay.
pub record Does (m : Matching) (found : Bool) (n : Matching) : Type 0 where
  pub counted : count_matched n.matched_left_by_right ≡ (
      if found
      then suc (count_matched m.matched_left_by_right)
      else count_matched m.matched_left_by_right)
  pub kept :
      (r : ℕ)
      → seen r m ≡ true
      → matched_at r n.matched_left_by_right ≡ matched_at r m.matched_left_by_right
  pub still : (r : ℕ) → seen r m ≡ true → seen r n ≡ true
  pub size : length n.matched_left_by_right ≡ length m.matched_left_by_right

abbrev pub Ends : Matching → Search → Type 0
Ends m none = ⊥
Ends m (some (found, n)) = Does m found n

length-set_at {ℓ} : {A : Type ℓ} (i : ℕ) (v : A) (l : List A) → length (set_at i v l) ≡ length l
unfolding set_at
length-set_at i v [] = refl
length-set_at zero v (x ∷ l) = refl
length-set_at (suc i) v (x ∷ l) = ground (arith, length-set_at i v l)

matched_at-set_at :
    (i j : ℕ) (v : Option ℕ) (l : List (Option ℕ))
    → eqb i j ≡ false
    → matched_at j (set_at i v l) ≡ matched_at j l
unfolding set_at matched_at
matched_at-set_at i j v [] h = refl
matched_at-set_at zero zero v (x ∷ l) h = ground arith
matched_at-set_at zero (suc j) v (x ∷ l) h = refl
matched_at-set_at (suc i) zero v (x ∷ l) h = refl
matched_at-set_at (suc i) (suc j) v (x ∷ l) h = ground (arith, matched_at-set_at i j v l)

-- Giving a right word a left word, where it had none, or had one
count-set_at :
    (i left : ℕ) (l : List (Option ℕ))
    → i < length l
    → count_matched (set_at i (some left) l)
      ≡ (if is_some (matched_at i l) then count_matched l else suc (count_matched l))
unfolding count_matched set_at matched_at
count-set_at i left [] h = absurd (omega arith)
count-set_at zero left (none ∷ l) h = refl
count-set_at zero left (some x ∷ l) h = refl
count-set_at (suc i) left (none ∷ l) h = count-set_at i left l (omega arith)
count-set_at (suc i) left (some x ∷ l) h = ground (arith, count-set_at i left l)

pub unseen-le :
    (index n : ℕ) (s t : List ℕ)
    → ((r : ℕ) → any (λ i. eqb i r) s ≡ true → any (λ i. eqb i r) t ≡ true)
    → unseen index n t ≤ unseen index n s
unfolding unseen
unseen-le index zero s t h = omega arith
unseen-le index (suc n) s t h = ground (arith, unseen-le (suc index) n s t h, h index)

pub unseen-bound : (index n : ℕ) (s : List ℕ) → unseen index n s ≤ n
unfolding unseen
unseen-bound index zero s = omega arith
unseen-bound index (suc n) s = ground (arith, unseen-bound (suc index) n s)

-- Seeing one more leaves fewer.
pub unseen-cons :
    (index n r : ℕ) (s : List ℕ)
    → index ≤ r
    → r < index + n
    → any (λ i. eqb i r) s ≡ false
    → unseen index n (r ∷ s) < unseen index n s
unfolding unseen
unseen-cons index zero r s lo hi h = absurd (omega arith)
unseen-cons index (suc n) r s lo hi h = elim (Bool-cases (eqb r index)) [
  | inl e ↦ ground (arith, unseen-le (suc index) n s (r ∷ s) (λ i k. ground arith))
  | inr e ↦ ground (arith, unseen-cons (suc index) n r s)
]

Does-trans :
    (m next : Matching) (found : Bool) (n : Matching)
    → Does m false next
    → Does next found n
    → Does m found n
Does-trans m next found n d e = record {
  counted = ground (arith, d.counted, e.counted);
  kept = λ r h. ground (arith, d.kept r h, d.still r h, e.kept r);
  still = λ r h. ground (arith, d.still r h, e.still r);
  size = e.size ∙ d.size;
}

pub Ends-trans : (m next : Matching) (s : Search) → Does m false next → Ends next s → Ends m s
Ends-trans m next none d e = e
Ends-trans m next (some (found, n)) d e = Does-trans m next found n d e

seen-differs :
    (r : ℕ) (m : Matching) → seen r m ≡ false → (j : ℕ) → seen j m ≡ true → eqb r j ≡ false
seen-differs r m fresh j h = elim (Bool-cases (eqb r j)) [
  | inl e ↦ let same : r ≡ j = ground arith in absurd (ground (arith, ap (λ i. seen i m) same))
  | inr e ↦ e
]

module _ (r left n : ℕ) (m : Matching) (fresh : seen r m ≡ false) (below : r < n)
    (sized : length m.matched_left_by_right ≡ n) where
  -- The right word was free.
  pub with_left-free :
      matched_at r m.matched_left_by_right ≡ none
      → Does m true (with_left r left (record m { seen_right = r ∷ m.seen_right }))
  unfolding with_left
  with_left-free free = record {
    counted = ground (arith, count-set_at r left m.matched_left_by_right);
    kept = λ j h.
        matched_at-set_at r j (some left) m.matched_left_by_right (seen-differs r m fresh j h);
    still = λ j h. ground arith;
    size = length-set_at r (some left) m.matched_left_by_right;
  }

  -- Its left word found another right word.
  with_left-moved :
      (other : ℕ) (next : Matching)
      → matched_at r m.matched_left_by_right ≡ some other
      → Does (record m { seen_right = r ∷ m.seen_right }) true next
      → Does m true (with_left r left next)
  unfolding with_left
  with_left-moved other next taken d = record {
    counted = ground (
      arith,
      d.counted,
      d.kept r (ground arith),
      count-set_at r left next.matched_left_by_right,
      d.size,
    );
    kept = λ j h.
        matched_at-set_at r j (some left) next.matched_left_by_right (seen-differs r m fresh j h)
        ∙ d.kept j (ground arith);
    still = λ j h. d.still j (ground arith);
    size = length-set_at r (some left) next.matched_left_by_right ∙ d.size;
  }

  failed :
      (next : Matching)
      → Does (record m { seen_right = r ∷ m.seen_right }) false next
      → Does m false next
  failed next d = record {
    counted = d.counted;
    kept = λ j h. d.kept j (ground arith);
    still = λ j h. d.still j (ground arith);
    size = d.size;
  }

  -- The search for its left word ended.
  pub after-Ends :
      (other : ℕ)
      → matched_at r m.matched_left_by_right ≡ some other
      → (rest : Matching → Search) (s : Search)
      → Ends (record m { seen_right = r ∷ m.seen_right }) s
      → ((next : Matching)
          → Does (record m { seen_right = r ∷ m.seen_right }) false next
          → Ends next (rest next))
      → Ends m (elim s [
        | none ↦ none
        | some (true, next) ↦ some (true, with_left r left next)
        | some (false, next) ↦ rest next
      ])
  after-Ends other taken rest none d h = d
  after-Ends other taken rest (some (true, next)) d h = with_left-moved other next taken d
  after-Ends other taken rest (some (false, next)) d h =
      Ends-trans m next (rest next) (failed next d) (h next d)
