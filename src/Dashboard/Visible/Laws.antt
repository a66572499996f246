-- ===== src/Dashboard/Visible/Laws.antt =====
-- Which items reconcileMinimumVisibleItems shows, and when nextMinimumVisibleExpiry tells that one
-- of them goes.
use surebet.Base.{
  String, Bool, true, false, not, ◌&&◌, ◌||◌, ◌≡◌, ◌∙◌, refl, Option, none, some, List, [], ◌∷◌,
  map, any, any-append, inl, inr, filter, flat_map, ◌==◌, eq_iff, arith, Option-cases, Bool-cases,
}
use surebet.Base.Int.{ℤ, ◌+ℤ◌, +ℤ_parts, -ℤ_parts, ◌≤ℤ◌, ltb_ℤ}
use surebet.JsMap.{get, has}
use surebet.JsMap.Laws.{has-get}
use surebet.JsMap.SetOf.{elem, set_of, has-set_of, index_by, has-index_by, get-index_by}
use surebet.Dashboard.Visible.{
  MinimumVisibleEntry, entry_id, is_young, kept_entry, reconcile_minimum_visible_items, earlier,
  earliest_expiry, next_minimum_visible_expiry,
}

module _ {ℓ} {T : Type ℓ} (id : T → String) where
  -- An item with this id is in the list.
  abbrev pub shows : String → List (MinimumVisibleEntry T) → Bool
  shows k entries = any (λ e. entry_id id e == k) entries

  shows-new :
      (k : String) (now : ℤ) (p : T → Bool) (incoming : List T)
      → shows k (map (λ item. record { item = item; first_visible_at = now }) (filter p incoming))
        ≡ any (λ x. (id x == k) && p x) incoming
  unfolding entry_id
  shows-new k now p [] = refl
  shows-new k now p (x ∷ xs) = ground (arith, shows-new k now p xs)

  -- An earlier entry stays when its id is listed or it is young.
  shows-kept :
      (k : String) (incoming : List T) (now ms : ℤ) (e : MinimumVisibleEntry T)
      → shows k (kept_entry id incoming now ms e)
        ≡ ((entry_id id e == k) && (elem (entry_id id e) (map id incoming) || is_young id now ms e))
  unfolding kept_entry entry_id
  shows-kept k incoming now ms e = elim (Option-cases (get (id e.item) (index_by id incoming))) [
    | inl h ↦
        ground
          (arith, has-get (id e.item) (index_by id incoming), has-index_by id (id e.item) incoming)
    | inr (x, h) ↦ ground (
      arith,
      has-get (id e.item) (index_by id incoming),
      has-index_by id (id e.item) incoming,
      get-index_by id (id e.item) incoming x h,
      eq_iff (id x) (id e.item),
    )
  ]

  shows-kept_entries :
      (k : String) (incoming : List T) (now ms : ℤ) (entries : List (MinimumVisibleEntry T))
      → shows k (flat_map (kept_entry id incoming now ms) entries)
        ≡ any
            (λ e.
              (entry_id id e == k)
              && (elem (entry_id id e) (map id incoming) || is_young id now ms e))
            entries
  shows-kept_entries k incoming now ms [] = refl
  shows-kept_entries k incoming now ms (e ∷ rest) = ground (
    arith,
    any-append (λ e. entry_id id e == k) (kept_entry id incoming now ms e)
        (flat_map (kept_entry id incoming now ms) rest),
    shows-kept k incoming now ms e,
    shows-kept_entries k incoming now ms rest,
  )

  -- What the test by the key says of the list of keys
  any-with_key :
      (k : String) (b : Bool) (p : T → Bool) (xs : List T)
      → ((x : T) → (id x == k) ≡ true → p x ≡ b)
      → any (λ x. (id x == k) && p x) xs ≡ (b && elem k (map id xs))
  any-with_key k b p [] h = ground arith
  any-with_key k b p (x ∷ xs) h = ground (arith, any-with_key k b p xs h, h x)

  any-young :
      (k : String) (b : Bool) (p q : MinimumVisibleEntry T → Bool)
      (es : List (MinimumVisibleEntry T))
      → ((e : MinimumVisibleEntry T) → (entry_id id e == k) ≡ true → p e ≡ (b || q e))
      → any (λ e. (entry_id id e == k) && p e) es
        ≡ (b && elem k (map (entry_id id) es) || any (λ e. (entry_id id e == k) && q e) es)
  any-young k b p q [] h = ground arith
  any-young k b p q (e ∷ es) h = ground (arith, any-young k b p q es h, h e)

  -- An item is shown exactly when it is incoming, or its earlier entry has not been visible for the
  -- minimum time.
  pub shows-reconcile :
      (k : String) (previous : List (MinimumVisibleEntry T)) (incoming : List T) (now ms : ℤ)
      → shows k (reconcile_minimum_visible_items id previous incoming now ms) ≡ (
          elem k (map id incoming)
          || any (λ e. (entry_id id e == k) && is_young id now ms e) previous)
  unfolding reconcile_minimum_visible_items
  shows-reconcile k previous incoming now ms = ground (
    arith,
    any-append (λ e. entry_id id e == k)
        (map (λ item. record { item = item; first_visible_at = now })
          (filter (λ x. not (has (id x) (set_of (map (entry_id id) previous)))) incoming))
        (flat_map (kept_entry id incoming now ms) previous),
    shows-new k now (λ x. not (has (id x) (set_of (map (entry_id id) previous)))) incoming,
    shows-kept_entries k incoming now ms previous,
    any-with_key k (not (elem k (map (entry_id id) previous)))
        (λ x. not (has (id x) (set_of (map (entry_id id) previous)))) incoming
        (λ x h. ground (arith, has-set_of (id x) (map (entry_id id) previous), eq_iff (id x) k)),
    any-young k (elem k (map id incoming))
        (λ e. elem (entry_id id e) (map id incoming) || is_young id now ms e) (is_young id now ms)
        previous (λ e h. ground (arith, eq_iff (entry_id id e) k)),
  )

  -- The entry goes at the time: it is neither listed nor young.
  abbrev pub goes : List T → ℤ → ℤ → MinimumVisibleEntry T → Bool
  goes incoming ms now e = not (elem (entry_id id e) (map id incoming) || is_young id now ms e)

  -- Before every expiry: `t` is at most what `o` holds.
  abbrev pub no_later : ℤ → Option ℤ → Bool
  no_later t none = true
  no_later t (some u) = ltb_ℤ t u

  module _ (incoming : List T) (ms : ℤ) where
    -- An entry that is not listed goes from its own expiry on.
    goes_lem :
        (t : ℤ) (e : MinimumVisibleEntry T)
        → goes incoming ms t e ≡ (
            not (has (entry_id id e) (set_of (map id incoming)))
            && not (ltb_ℤ t (e.first_visible_at +ℤ ms)))
    unfolding is_young
    goes_lem t e = ground (
      arith,
      has-set_of (entry_id id e) (map id incoming),
      -ℤ_parts t e.first_visible_at,
      +ℤ_parts e.first_visible_at ms,
    )

    earlier_lem :
        (t expiry : ℤ) (o : Option ℤ)
        → ltb_ℤ t (earlier expiry o) ≡ (ltb_ℤ t expiry && no_later t o)
    unfolding earlier
    earlier_lem t expiry none = ground arith
    earlier_lem t expiry (some u) = ground arith

    -- Before the earliest expiry, and only then, no entry goes.
    any-goes :
        (t : ℤ) (es : List (MinimumVisibleEntry T)) (o : Option ℤ)
        → no_later t (earliest_expiry id incoming ms es o)
          ≡ (not (any (goes incoming ms t) es) && no_later t o)
    unfolding earliest_expiry
    any-goes t [] o = refl
    any-goes t (e ∷ es) o = elim (Bool-cases (has (entry_id id e) (set_of (map id incoming)))) [
      | inl h ↦ rw (goes_lem t e, h) (any-goes t es o)
      | inr h ↦
          rw (goes_lem t e, h)
            (ground (
              arith,
              any-goes t es (some (earlier (e.first_visible_at +ℤ ms) o)),
              earlier_lem t (e.first_visible_at +ℤ ms) o,
            ))
    ]

    any-stays :
        (k : String) (t : ℤ) (es : List (MinimumVisibleEntry T))
        → any (goes incoming ms t) es ≡ false
        → (elem k (map id incoming) || any (λ e. (entry_id id e == k) && is_young id t ms e) es)
          ≡ (elem k (map id incoming) || shows k es)
    any-stays k t [] h = refl
    any-stays k t (e ∷ es) h = ground (arith, any-stays k t es, eq_iff (entry_id id e) k)

    no_later-next_expiry :
        (entries : List (MinimumVisibleEntry T)) (now t : ℤ)
        → no_later t (next_minimum_visible_expiry id entries incoming now ms) ≡ true
        → now ≤ℤ t
        → any (goes incoming ms t) entries ≡ false
    unfolding next_minimum_visible_expiry
    no_later-next_expiry entries now t h k =
        elim (Option-cases (earliest_expiry id incoming ms entries none)) [
          | inl e ↦ ground (arith, any-goes t entries none)
          | inr (u, e) ↦ ground (arith, any-goes t entries none)
        ]

    -- Until the next expiry, and for ever where there is none, the list shows again every item that
    -- it shows, besides those of the incoming list.
    pub reconcile_before_expiry :
        (entries : List (MinimumVisibleEntry T)) (now t : ℤ) (k : String)
        → no_later t (next_minimum_visible_expiry id entries incoming now ms) ≡ true
        → now ≤ℤ t
        → shows k (reconcile_minimum_visible_items id entries incoming t ms)
          ≡ (elem k (map id incoming) || shows k entries)
    reconcile_before_expiry entries now t k h later =
        shows-reconcile k entries incoming t ms
        ∙ any-stays k t entries (no_later-next_expiry entries now t h later)

    -- The next expiry is not in the past, and at that time an entry that is not in the incoming list
    -- has been visible for the minimum time.
    pub next_expiry-goes :
        (entries : List (MinimumVisibleEntry T)) (now u : ℤ)
        → next_minimum_visible_expiry id entries incoming now ms ≡ some u
        → (now ≤ℤ u) × (any (goes incoming ms u) entries ≡ true)
    unfolding next_minimum_visible_expiry
    next_expiry-goes entries now u h =
        elim (Option-cases (earliest_expiry id incoming ms entries none)) [
          | inl e ↦ absurd (ground arith)
          | inr (v, e) ↦ ground (arith, any-goes u entries none)
        ]
