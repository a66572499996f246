-- ===== src/JsMap/Unique.antt =====
-- Maps with one entry for each key.
use surebet.Base.{String, ◌≡◌, refl, false, List, [], ◌∷◌, eq_iff, arith}
use surebet.JsMap.{JsMap, has, set, delete, set_all}
use surebet.JsMap.Laws.{has-set, has-delete}

module _ {ℓ} {V : Type ℓ} where
  -- No key stands twice.
  abbrev pub IsUnique : JsMap V → Type 0
  IsUnique [] = Unit
  IsUnique ((k, v) ∷ m) = (has k m ≡ false) × IsUnique m

  pub set-IsUnique : (k : String) (v : V) (m : JsMap V) → IsUnique m → IsUnique (set k v m)
  unfolding set has
  set-IsUnique k v [] h = (refl, tt)
  set-IsUnique k v ((i, w) ∷ m) h =
      ground (arith, eq_iff i k, eq_iff k i, has-set k i v m, set-IsUnique k v m h.1)

  pub delete-IsUnique : (k : String) (m : JsMap V) → IsUnique m → IsUnique (delete k m)
  unfolding delete
  delete-IsUnique k [] h = tt
  delete-IsUnique k ((i, w) ∷ m) h =
      ground (arith, eq_iff i k, eq_iff k i, has-delete k i m, delete-IsUnique k m h.1)

  pub set_all-IsUnique : (l : List (String × V)) (m : JsMap V) → IsUnique m → IsUnique (set_all l m)
  unfolding set_all
  set_all-IsUnique [] m h = h
  set_all-IsUnique ((k, v) ∷ l) m h = set_all-IsUnique l (set k v m) (set-IsUnique k v m h)
