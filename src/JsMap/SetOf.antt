-- ===== src/JsMap/SetOf.antt =====
-- The `Set` of a list of texts, and the `Map` of a list under a key of each element.
use surebet.Base.{some, map, String, ◌≡◌, refl, Bool, true, ◌||◌, List, [], ◌∷◌, ◌==◌, any, arith}
use surebet.JsMap.{JsMap, JsSet, get, has, set, empty}
use surebet.JsMap.Laws.{has-set, get-set}

-- `list.includes(k)`
abbrev pub elem : String → List String → Bool
elem k l = any (λ j. j == k) l

-- `new Set(list)`, added to a set
unfoldable pub set_from : List String → JsSet → JsSet
set_from [] s = s
set_from (k ∷ rest) s = set_from rest (set k tt s)

-- `new Set(list)`
unfoldable pub set_of : List String → JsSet
unfolding set_from
set_of l = set_from l empty

has-set_from :
    (k : String) (l : List String) (s : JsSet) → has k (set_from l s) ≡ (elem k l || has k s)
unfolding set_from
has-set_from k [] s = refl
has-set_from k (j ∷ rest) s = ground (arith, has-set_from k rest (set j tt s), has-set j k tt s)

pub has-set_of : (k : String) (l : List String) → has k (set_of l) ≡ elem k l
unfolding set_of has
has-set_of k l = ground (arith, has-set_from k l empty)

module _ {ℓ} {T : Type ℓ} (key : T → String) where
  -- `new Map(list.map((x) => [key(x), x]))`, added to a map
  unfoldable pub index_from : List T → JsMap T → JsMap T
  index_from [] m = m
  index_from (x ∷ xs) m = index_from xs (set (key x) x m)

  unfoldable pub index_by : List T → JsMap T
  unfolding index_from
  index_by l = index_from l empty

  has-index_from :
      (k : String) (l : List T) (m : JsMap T)
      → has k (index_from l m) ≡ (elem k (map key l) || has k m)
  unfolding index_from
  has-index_from k [] m = refl
  has-index_from k (x ∷ xs) m =
      ground (arith, has-index_from k xs (set (key x) x m), has-set (key x) k x m)

  pub has-index_by : (k : String) (l : List T) → has k (index_by l) ≡ elem k (map key l)
  unfolding index_by has
  has-index_by k l = ground (arith, has-index_from k l empty)

  get-index_from :
      (k : String) (l : List T) (m : JsMap T)
      → ((y : T) → get k m ≡ some y → (key y == k) ≡ true)
      → (x : T) → get k (index_from l m) ≡ some x
      → (key x == k) ≡ true
  unfolding index_from
  get-index_from k [] m p x e = p x e
  get-index_from k (z ∷ zs) m p x e =
      get-index_from k zs (set (key z) z m) (λ y h. ground (arith, get-set (key z) k z m, p y)) x e

  -- What the map holds under a key has that key.
  pub get-index_by :
      (k : String) (l : List T) (x : T) → get k (index_by l) ≡ some x → (key x == k) ≡ true
  unfolding index_by get
  get-index_by k l x e = get-index_from k l empty (λ y h. cc) x e
