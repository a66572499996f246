-- ===== src/Dashboard/Fixtures/Distance/Alignment.antt =====
-- The rows of levenshteinDistance hold the recursive edit distance of the prefixes, and that is the
-- least price of an alignment.
use Prim.Native.Char.{Char}
use mathlib.Core.List.{reverse_aux}
use surebet.Base.{
  ℕ, suc, ◌+◌, ◌≤◌, min, ◌≡◌, refl, ◌⊎◌, inl, inr, ap, ◌∙◌, List, [], ◌∷◌, reverse, some, arith,
  length, get_elem?,
}
use surebet.Dashboard.Fixtures.Distance.{cost, indices, fill_row, rows, levenshtein_distance}

-- The distance of two texts that are read from their ends
unfoldable pub dist : List Char → List Char → ℕ
unfolding cost
dist [] q = length q
dist (a ∷ p) [] = suc (length p)
dist (a ∷ p) (b ∷ q) = min (min (dist (a ∷ p) q + 1) (dist p (b ∷ q) + 1)) (dist p q + cost a b)

-- An alignment of the two: `replace` of equal characters is free.
pub data Alignment : List Char → List Char → Type 0 where
  start : Alignment [] []
  remove : {p q : List Char} (a : Char) → Alignment p q → Alignment (a ∷ p) q
  insert : {p q : List Char} (b : Char) → Alignment p q → Alignment p (b ∷ q)
  replace : {p q : List Char} (a b : Char) → Alignment p q → Alignment (a ∷ p) (b ∷ q)

unfoldable pub price : {p q : List Char} → Alignment p q → ℕ
unfolding cost
price start = 0
price (remove a s) = price s + 1
price (insert b s) = price s + 1
price (replace a b s) = price s + cost a b

dist-nil : (p : List Char) → dist p [] ≡ length p
unfolding dist
dist-nil [] = refl
dist-nil (a ∷ p) = refl

-- No alignment is cheaper than the distance.
dist-le-price : {p q : List Char} (s : Alignment p q) → dist p q ≤ price s
unfolding dist price
dist-le-price start = omega arith
dist-le-price (remove {p} {q = []} a s) = omega (arith, dist-le-price s, dist-nil p)
dist-le-price (remove {p} {q = b ∷ q} a s) = ground (arith, dist-le-price s)
dist-le-price (insert {p = []} b s) = omega (arith, dist-le-price s)
dist-le-price (insert {p = a ∷ p} b s) = ground (arith, dist-le-price s)
dist-le-price (replace a b s) = ground (arith, dist-le-price s)

min-cases : (x y z : ℕ) → (min (min x y) z ≡ x) ⊎ ((min (min x y) z ≡ y) ⊎ (min (min x y) z ≡ z))
min-cases x y z = ground arith

-- The row of the distances from `p` to `q` and its extensions by a further text
row : List Char → List Char → List Char → List ℕ
row p q [] = dist p q ∷ []
row p q (r ∷ right) = dist p q ∷ row p (r ∷ q) right

fill_row-row :
    (a : Char) (p q right : List Char)
    → dist (a ∷ p) q ∷ fill_row a (dist (a ∷ p) q) (row p q right) right ≡ row (a ∷ p) q right
unfolding fill_row row dist
fill_row-row a p q [] = refl
fill_row-row a p q (r ∷ []) = refl
fill_row-row a p q (r ∷ s ∷ right) =
    ap (λ l. dist (a ∷ p) q ∷ l) (fill_row-row a p (r ∷ q) (s ∷ right))

indices-row : (q right : List Char) → indices (length q) right ≡ row [] q right
unfolding indices row dist
indices-row q [] = refl
indices-row q (r ∷ right) = ap (λ l. length q ∷ l) (indices-row (r ∷ q) right)

rows-row :
    (p left right : List Char)
    → rows (length p) (row p [] right) left right ≡ row (reverse_aux left p) [] right
unfolding rows dist
rows-row p [] right = refl
rows-row p (a ∷ left) right =
    ap (λ l. rows (suc (length p)) l left right) (fill_row-row a p [] right)
    ∙ rows-row (a ∷ p) left right

last-row :
    (p q right : List Char)
    → get_elem? (row p q right) (length right) ≡ some (dist p (reverse_aux right q))
unfolding row
last-row p q [] = refl
last-row p q (r ∷ right) = last-row p (r ∷ q) right

distance-dist :
    (left right : List Char) → levenshtein_distance left right ≡ dist (reverse left) (reverse right)
unfolding levenshtein_distance
distance-dist left right =
    rw (indices-row [] right, rows-row [] left right, last-row (reverse left) [] right) refl

-- An alignment of that price
cheapest : (p q : List Char) → (s : Alignment p q) × (price s ≡ dist p q)
unfolding dist price
cheapest [] [] = (start, refl)
cheapest [] (b ∷ q) = let s = cheapest [] q in (insert b s.0, omega (arith, s.1))
cheapest (a ∷ p) [] = let s = cheapest p [] in (remove a s.0, omega (arith, s.1, dist-nil p))
cheapest (a ∷ p) (b ∷ q) = least (cheapest (a ∷ p) q) (cheapest p (b ∷ q)) (cheapest p q)
  where
    least :
        ((s : Alignment (a ∷ p) q) × (price s ≡ dist (a ∷ p) q))
        → ((s : Alignment p (b ∷ q)) × (price s ≡ dist p (b ∷ q)))
        → ((s : Alignment p q) × (price s ≡ dist p q))
        → (s : Alignment (a ∷ p) (b ∷ q)) × (price s ≡ dist (a ∷ p) (b ∷ q))
    least (s, e) (t, f) (u, g) =
        elim (min-cases (dist (a ∷ p) q + 1) (dist p (b ∷ q) + 1) (dist p q + cost a b)) [
          | inl h ↦ (insert b s, omega (arith, e, h))
          | inr (inl h) ↦ (remove a t, omega (arith, f, h))
          | inr (inr h) ↦ (replace a b u, omega (arith, g, h))
        ]

-- The Levenshtein distance is the least price of an alignment of the two words: one has this price,
-- and none is cheaper.
pub levenshtein_distance-least :
    (left right : List Char) (other : Alignment (reverse left) (reverse right))
    → ((s : Alignment (reverse left) (reverse right)) × (price s ≡ levenshtein_distance left right))
      × (levenshtein_distance left right ≤ price other)
levenshtein_distance-least left right other =
    rw (distance-dist left right) (cheapest (reverse left) (reverse right), dist-le-price other)
