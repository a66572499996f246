-- ===== src/Dashboard/Visible.antt =====
-- Lists whose items stay visible for a minimum time: frontend/lib/minimum-visible-items.ts. Times are
-- whole milliseconds; `id` reads the id of an item.
pub mod Laws
use surebet.Base.{
  String, Bool, not, ◌&&◌, Option, none, some, List, [], ◌∷◌, ◌++◌, map, filter, flat_map,
  if◌then◌else◌,
}
use surebet.Base.Int.{ℤ, pos, ◌+ℤ◌, ◌-ℤ◌, ltb_ℤ}
use surebet.JsMap.{get, has}
use surebet.JsMap.SetOf.{set_of, index_by}

abbrev pub default_minimum_visible_ms : ℤ
default_minimum_visible_ms = pos 20_000

pub record MinimumVisibleEntry {ℓ} (T : Type ℓ) : Type ℓ where
  pub item : T
  pub first_visible_at : ℤ

-- The earlier of a time and the one found before it, if there is one.
pub earlier : ℤ → Option ℤ → ℤ
earlier expiry none = expiry
earlier expiry (some t) = if ltb_ℤ expiry t then expiry else t

module _ {ℓ} {T : Type ℓ} (id : T → String) where
  unfoldable pub entry_id : MinimumVisibleEntry T → String
  entry_id entry = id entry.item

  -- The entry has not been visible for the minimum time yet.
  pub is_young : ℤ → ℤ → MinimumVisibleEntry T → Bool
  is_young now minimum_visible_ms entry = ltb_ℤ (now -ℤ entry.first_visible_at) minimum_visible_ms

  unfoldable pub kept_entry : List T → ℤ → ℤ → MinimumVisibleEntry T → List (MinimumVisibleEntry T)
  unfolding is_young entry_id
  kept_entry incoming now minimum_visible_ms entry =
      elim (get (entry_id entry) (index_by id incoming)) [
        | some current ↦ record entry { item = current } ∷ []
        | none ↦ if is_young now minimum_visible_ms entry then entry ∷ [] else []
      ]

  unfoldable pub reconcile_minimum_visible_items :
      List (MinimumVisibleEntry T) → List T → ℤ → ℤ → List (MinimumVisibleEntry T)
  unfolding kept_entry
  reconcile_minimum_visible_items previous incoming now minimum_visible_ms =
      let previous_ids = set_of (map entry_id previous) in
      let new_items = filter (λ item. not (has (id item) previous_ids)) incoming in
      map (λ item. record { item = item; first_visible_at = now }) new_items
      ++ flat_map (kept_entry incoming now minimum_visible_ms) previous

  -- The loop of nextMinimumVisibleExpiry.
  pub earliest_expiry : List T → ℤ → List (MinimumVisibleEntry T) → Option ℤ → Option ℤ
  unfolding entry_id earlier
  earliest_expiry incoming minimum_visible_ms [] next_expiry = next_expiry
  earliest_expiry incoming minimum_visible_ms (entry ∷ rest) next_expiry =
      earliest_expiry incoming minimum_visible_ms rest (
        if has (entry_id entry) (set_of (map id incoming))
        then next_expiry
        else some (earlier (entry.first_visible_at +ℤ minimum_visible_ms) next_expiry))

  unfoldable pub next_minimum_visible_expiry :
      List (MinimumVisibleEntry T) → List T → ℤ → ℤ → Option ℤ
  unfolding earliest_expiry
  next_minimum_visible_expiry entries incoming now minimum_visible_ms =
      elim (earliest_expiry incoming minimum_visible_ms entries none) [
        | none ↦ none
        | some next_expiry ↦ some (if ltb_ℤ now next_expiry then next_expiry else now)
      ]
