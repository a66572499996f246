-- ===== src/JsMap.antt =====
-- JavaScript's `Map` with text keys, as the list of its entries in insertion order: `set` of a key
-- that is present keeps the entry's place, and a new key goes to the end.
pub mod Laws
pub mod Unique
pub mod Bounded
pub mod SetOf
use surebet.Base.{
  ℕ, String, Bool, true, false, Option, none, some, List, [], ◌∷◌, ◌==◌, length, if◌then◌else◌,
}

abbrev pub JsMap {ℓ} : Type ℓ → Type ℓ
JsMap V = List (String × V)

module _ {ℓ} {V : Type ℓ} where
  -- `new Map()`
  abbrev pub empty : JsMap V
  empty = []

  unfoldable pub get : String → JsMap V → Option V
  get k [] = none
  get k ((j, v) ∷ m) = if j == k then some v else get k m

  unfoldable pub has : String → JsMap V → Bool
  has k [] = false
  has k ((j, v) ∷ m) = if j == k then true else has k m

  unfoldable pub set : String → V → JsMap V → JsMap V
  set k v [] = (k, v) ∷ []
  set k v ((j, w) ∷ m) = if j == k then (j, v) ∷ m else (j, w) ∷ set k v m

  unfoldable pub delete : String → JsMap V → JsMap V
  delete k [] = []
  delete k ((j, v) ∷ m) = let rest = delete k m in if j == k then rest else (j, v) ∷ rest

  abbrev pub size : JsMap V → ℕ
  size m = length m

  -- `map.keys().next().value`
  unfoldable pub first_key : JsMap V → Option String
  first_key [] = none
  first_key ((j, v) ∷ m) = some j

  unfoldable pub keys : JsMap V → List String
  keys [] = []
  keys ((j, v) ∷ m) = j ∷ keys m

  unfoldable pub values : JsMap V → List V
  values [] = []
  values ((j, v) ∷ m) = v ∷ values m

  -- `new Map(entries)`
  unfoldable pub set_all : List (String × V) → JsMap V → JsMap V
  set_all [] m = m
  set_all ((k, v) ∷ rest) m = set_all rest (set k v m)

-- A `Set` of texts is a map to the unit type.
abbrev pub JsSet : Type 0
JsSet = JsMap (Unit {0})
