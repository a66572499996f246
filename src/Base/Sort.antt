-- ===== src/Base/Sort.antt =====
-- `Array.prototype.sort` with a comparator, as a stable insertion sort: `before x y` says that the
-- comparator puts `x` before `y`, `comparator(x, y) < 0`.
use Prim.Native.Nat.{suc}
use mathlib.Core.Path.{◌≡◌, refl, ap, ◌∙◌}
use mathlib.Core.Bool.{Bool, true, false, ◌||◌}
use mathlib.Core.List.{List, [], ◌∷◌}
use native.Mathlib.Omega.{arith}
use surebet.Base.Tests.{if◌then◌else◌}
use surebet.Base.Lists.{length, any, All}

module _ {ℓ} {A : Type ℓ} (before : A → A → Bool) where
  unfoldable pub insert_before : A → List A → List A
  insert_before x [] = x ∷ []
  insert_before x (y ∷ ys) =
      let rest = insert_before x ys in if before y x then y ∷ rest else x ∷ y ∷ ys

  unfoldable pub sort_by : List A → List A
  unfolding insert_before
  sort_by [] = []
  sort_by (x ∷ xs) = insert_before x (sort_by xs)

  length-insert_before : (x : A) (xs : List A) → length (insert_before x xs) ≡ suc (length xs)
  unfolding insert_before
  length-insert_before x [] = refl
  length-insert_before x (y ∷ ys) = ground (arith, length-insert_before x ys)

  pub length-sort_by : (xs : List A) → length (sort_by xs) ≡ length xs
  unfolding sort_by
  length-sort_by [] = refl
  length-sort_by (x ∷ xs) = length-insert_before x (sort_by xs) ∙ ap suc (length-sort_by xs)

  any-insert_before :
      (p : A → Bool) (x : A) (xs : List A) → any p (insert_before x xs) ≡ (p x || any p xs)
  unfolding insert_before
  any-insert_before p x [] = refl
  any-insert_before p x (y ∷ ys) = ground (arith, any-insert_before p x ys)

  -- A sort keeps what some element satisfies.
  pub any-sort_by : (p : A → Bool) (xs : List A) → any p (sort_by xs) ≡ any p xs
  unfolding sort_by
  any-sort_by p [] = refl
  any-sort_by p (x ∷ xs) =
      any-insert_before p x (sort_by xs) ∙ ap (λ b. p x || b) (any-sort_by p xs)

  module _ {κ} (P : A → Type κ) where
    All-insert_before : (x : A) (xs : List A) → P x → All P xs → All P (insert_before x xs)
    unfolding insert_before
    All-insert_before x [] p h = (p, tt)
    All-insert_before x (y ∷ ys) p (q, h) = choose (before y x) (All-insert_before x ys p h)
      where
        choose :
            (b : Bool)
            → All P (insert_before x ys)
            → All P (if b then y ∷ insert_before x ys else x ∷ y ∷ ys)
        choose true r = (q, r)
        choose false r = (p, (q, h))

    pub All-sort_by : (xs : List A) → All P xs → All P (sort_by xs)
    unfolding sort_by
    All-sort_by [] h = tt
    All-sort_by (x ∷ xs) (p, h) = All-insert_before x (sort_by xs) p (All-sort_by xs h)
