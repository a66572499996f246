-- ===== src/JsMap/Bounded.antt =====
-- Maps that are kept to 10,000 entries: `setBounded` of collector/shared/src/live-actions.ts, which
-- collector/shared/src/actions.ts writes out once more, and `setBoundedMap` of
-- collector/shared/src/backend/backend-collector-stream-sink.ts.
use surebet.Base.{
  ◌+◌, ◌≤◌, String, ◌≡◌, false, not, ◌&&◌, none, some, [], ◌∷◌, arith, eq_refl, leb, inl, inr,
  Bool-cases, if◌then◌else◌,
}
use surebet.JsMap.{JsMap, get, has, set, delete, size, first_key}
use surebet.JsMap.Laws.{get-set, size-set, size-delete-le}

unfoldable pub evict_oldest {ℓ} : {V : Type ℓ} → JsMap V → JsMap V
evict_oldest m = elim (first_key m) [ none ↦ m | some oldest ↦ delete oldest m ]

-- `setBounded` of live-actions.ts: a full map loses its oldest entry, also when the key is present.
unfoldable pub set_bounded {ℓ} : {V : Type ℓ} → String → V → JsMap V → JsMap V
set_bounded key value m = set key value (if leb 10_000 (size m) then evict_oldest m else m)

-- `setBoundedMap` of the stream sink: a full map loses its oldest entry only to a new key.
unfoldable pub set_bounded_map {ℓ} : {V : Type ℓ} → String → V → JsMap V → JsMap V
set_bounded_map key value m =
    set key value (if not (has key m) && leb 10_000 (size m) then evict_oldest m else m)

module _ {ℓ} {V : Type ℓ} where
  pub get-set_bounded_self : (k : String) (v : V) (m : JsMap V) → get k (set_bounded k v m) ≡ some v
  unfolding set_bounded
  get-set_bounded_self k v m = simp (get-set, eq_refl)

  pub size-evict_oldest : (m : JsMap V) → 1 ≤ size m → size (evict_oldest m) + 1 ≤ size m
  unfolding evict_oldest first_key delete
  size-evict_oldest [] h = absurd (omega arith)
  size-evict_oldest ((k, v) ∷ m) h = simp eq_refl (omega (arith, size-delete-le k m))

  size-set-le : (k : String) (v : V) (m : JsMap V) → size (set k v m) ≤ size m + 1
  size-set-le k v m = ground (arith, size-set k v m)

  -- A map within the limit stays within it.
  pub size-set_bounded :
      (k : String) (v : V) (m : JsMap V) → size m ≤ 10_000 → size (set_bounded k v m) ≤ 10_000
  unfolding set_bounded
  size-set_bounded k v m h = elim (Bool-cases (leb 10_000 (size m))) [
    | inl full ↦
        rw full
          (omega (arith, size-set-le k v (evict_oldest m), size-evict_oldest m (ground arith)))
    | inr room ↦ rw room (omega (arith, size-set-le k v m, below room))
  ]
    where
      below : leb 10_000 (size m) ≡ false → size m + 1 ≤ 10_000
      below e = ground arith

  pub get-set_bounded_map_self :
      (k : String) (v : V) (m : JsMap V) → get k (set_bounded_map k v m) ≡ some v
  unfolding set_bounded_map
  get-set_bounded_map_self k v m = simp (get-set, eq_refl)

  pub size-set_bounded_map :
      (k : String) (v : V) (m : JsMap V) → size m ≤ 10_000 → size (set_bounded_map k v m) ≤ 10_000
  unfolding set_bounded_map
  size-set_bounded_map k v m h = elim (Bool-cases (leb 10_000 (size m))) [
    | inl full ↦ ground (
      arith,
      size-set-le k v (evict_oldest m),
      size-evict_oldest m (ground arith),
      size-set k v m,
    )
    | inr room ↦ ground (arith, size-set k v m, size-set-le k v (evict_oldest m))
  ]
