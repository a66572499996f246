-- ===== src/Sink/Cache/Latest.antt =====
-- The cache after deltas and snapshots
-- (`applyLatestDeltas` of collector/shared/src/backend/backend-collector-stream-sink.ts).
use surebet.Base.{
  String, ◌≡◌, refl, Option, none, some, List, [], ◌∷◌, arith, ◌==◌, is_some, if◌then◌else◌,
}
use surebet.JsMap.{get, has}
use surebet.JsMap.Laws.{get-set, get-delete, has-set, has-delete}
use surebet.Number.{Number}
use surebet.Contracts.Odds.{OddsSelection, OddsSnapshot, OddsDelta, DeltaOp, upsert, remove}
use surebet.Sink.Cache.{
  Cache, empty_cache, selection_key, delta_key, selection_from_delta, store_selection,
  store_selections, replace_latest_snapshot, apply_delta, apply_deltas, apply_latest_deltas,
}

-- The last word of the deltas on a key: `none` if they do not name it.
pub last_word : String → List OddsDelta → Option OddsDelta
last_word key [] = none
last_word key (d ∷ rest) = elim (last_word key rest) [
  | some later ↦ some later
  | none ↦ if delta_key d == key then some d else none
]

-- What a delta says of its key.
abbrev pub said : DeltaOp → OddsDelta → Option OddsSelection
said upsert d = some (selection_from_delta d)
said remove d = none

abbrev pub after : Option OddsDelta → Option OddsSelection → Option OddsSelection
after none before = before
after (some d) before = said d.op d

get-apply_delta :
    (key : String) (d : OddsDelta) (c : Cache)
    → get key (apply_delta d c).latest_selections
      ≡ (if delta_key d == key then said d.op d else get key c.latest_selections)
unfolding apply_delta
get-apply_delta key d c = ground (
  arith,
  get-set (delta_key d) key (selection_from_delta d) c.latest_selections,
  get-delete (delta_key d) key c.latest_selections,
)

get-apply_deltas :
    (key : String) (deltas : List OddsDelta) (c : Cache)
    → get key (apply_deltas deltas c).latest_selections
      ≡ after (last_word key deltas) (get key c.latest_selections)
unfolding apply_deltas last_word
get-apply_deltas key [] c = refl
get-apply_deltas key (d ∷ rest) c =
    ground (arith, get-apply_deltas key rest (apply_delta d c), get-apply_delta key d c)

-- With a bootstrap held, the cache holds for every key what the last delta on that key says, and
-- what it held before where no delta names the key; without one, deltas change nothing of the cache.
pub get-apply_latest_deltas :
    (date_parse : String → Number) (key : String) (deltas : List OddsDelta) (c : Cache)
    → (get key (apply_latest_deltas date_parse deltas c).latest_selections ≡ (
        if is_some c.latest_bootstrap
        then after (last_word key deltas) (get key c.latest_selections)
        else get key c.latest_selections))
      × ((if is_some c.latest_bootstrap then c else apply_latest_deltas date_parse deltas c) ≡ c)
unfolding apply_latest_deltas
get-apply_latest_deltas date_parse key deltas c =
    (ground (arith, get-apply_deltas key deltas c), ground arith)

-- The selections and their times of observation have the same keys.
pub IsAligned : Cache → Type 0
IsAligned c = (key : String) → has key c.latest_selections ≡ has key c.latest_selection_observed_at

pub empty_cache-IsAligned : IsAligned empty_cache
unfolding IsAligned has
empty_cache-IsAligned key = refl

store_selection-IsAligned :
    (at : String) (s : OddsSelection) (c : Cache) → IsAligned c → IsAligned (store_selection at s c)
unfolding IsAligned store_selection
store_selection-IsAligned at s c h key = ground (
  arith,
  h key,
  has-set (selection_key s) key s c.latest_selections,
  has-set (selection_key s) key at c.latest_selection_observed_at,
)

store_selections-IsAligned :
    (at : String) (l : List OddsSelection) (c : Cache)
    → IsAligned c
    → IsAligned (store_selections at l c)
unfolding store_selections
store_selections-IsAligned at [] c h = h
store_selections-IsAligned at (s ∷ l) c h =
    store_selections-IsAligned at l (store_selection at s c) (store_selection-IsAligned at s c h)

apply_delta-IsAligned : (d : OddsDelta) (c : Cache) → IsAligned c → IsAligned (apply_delta d c)
unfolding IsAligned apply_delta
apply_delta-IsAligned d c h key = ground (
  arith,
  h key,
  has-set (delta_key d) key (selection_from_delta d) c.latest_selections,
  has-set (delta_key d) key d.collected_at c.latest_selection_observed_at,
  has-delete (delta_key d) key c.latest_selections,
  has-delete (delta_key d) key c.latest_selection_observed_at,
)

apply_deltas-IsAligned :
    (l : List OddsDelta) (c : Cache) → IsAligned c → IsAligned (apply_deltas l c)
unfolding apply_deltas
apply_deltas-IsAligned [] c h = h
apply_deltas-IsAligned (d ∷ l) c h =
    apply_deltas-IsAligned l (apply_delta d c) (apply_delta-IsAligned d c h)

-- What the sink's user calls on the cache: a snapshot or a list of deltas.
pub data Update : Type 0 where
  snapshot : OddsSnapshot → Update
  deltas : List OddsDelta → Update

pub run_update : (String → Number) → Update → Cache → Cache
run_update date_parse (snapshot s) c = replace_latest_snapshot s c
run_update date_parse (deltas l) c = apply_latest_deltas date_parse l c

pub run_updates : (String → Number) → List Update → Cache → Cache
run_updates date_parse [] c = c
run_updates date_parse (u ∷ us) c = run_updates date_parse us (run_update date_parse u c)

apply_latest_deltas-IsAligned :
    (date_parse : String → Number) (l : List OddsDelta) (c : Cache)
    → IsAligned c
    → IsAligned (apply_latest_deltas date_parse l c)
unfolding IsAligned apply_latest_deltas
apply_latest_deltas-IsAligned date_parse l c h key =
    ground (arith, h key, apply_deltas-IsAligned l c h key)

run_update-IsAligned :
    (date_parse : String → Number) (u : Update) (c : Cache)
    → IsAligned c
    → IsAligned (run_update date_parse u c)
unfolding run_update replace_latest_snapshot has
run_update-IsAligned date_parse (snapshot s) c h =
    store_selections-IsAligned s.collected_at s.selections _ (unfold IsAligned has in λ key. refl)
run_update-IsAligned date_parse (deltas l) c h = apply_latest_deltas-IsAligned date_parse l c h

-- In a cache in which the selections and their times of observation have the same keys, they have
-- the same keys after any updates.
pub run_updates-IsAligned :
    (date_parse : String → Number) (us : List Update) (c : Cache)
    → IsAligned c
    → IsAligned (run_updates date_parse us c)
unfolding run_updates
run_updates-IsAligned date_parse [] c h = h
run_updates-IsAligned date_parse (u ∷ us) c h =
    run_updates-IsAligned date_parse us (run_update date_parse u c)
      (run_update-IsAligned date_parse u c h)
