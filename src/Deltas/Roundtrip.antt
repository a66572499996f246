-- ===== src/Deltas/Roundtrip.antt =====
-- A receiver that applies the deltas of two snapshots
-- (`buildDeltas` of collector/shared/src/bookmakers/streaming-utils.ts).
use surebet.Base.{
  String, ◌≡◌, refl, true, false, Option, none, some, List, [], ◌∷◌, ◌++◌, eq_iff, arith, inl, inr,
  Bool-cases, is_some, if◌then◌else◌,
}
use surebet.JsMap.{JsMap, get, has, set, delete, set_all}
use surebet.JsMap.Laws.{get-set, get-delete, has-get}
use surebet.JsMap.Unique.{IsUnique, set_all-IsUnique}
use surebet.Contracts.Odds.{OddsSelection, OddsSnapshot, OddsDelta, upsert, remove}
use surebet.Sink.Cache.{selection_from_delta}
use surebet.Deltas.{
  keyed_by_outcome, selection_map, quote_changed, needs_upsert, delta_of, upserts, removals,
  build_deltas,
}
use surebet.Deltas.Quotes.{
  Agrees, ShowsSame, SameQuote-refl, SameQuote-trans, Agrees-refl, unchanged-SameQuote,
}

-- A receiver that keeps the selections by outcome.
pub receive_one : OddsDelta → JsMap OddsSelection → JsMap OddsSelection
receive_one d m = elim d.op [
  | upsert ↦ set d.outcome_id (selection_from_delta d) m
  | remove ↦ delete d.outcome_id m
]

pub receive : List OddsDelta → JsMap OddsSelection → JsMap OddsSelection
receive [] m = m
receive (d ∷ ds) m = receive ds (receive_one d m)

receive-append :
    (ds es : List OddsDelta) (m : JsMap OddsSelection)
    → receive (ds ++ es) m ≡ receive es (receive ds m)
unfolding receive
receive-append [] es m = refl
receive-append (d ∷ ds) es m = receive-append ds es (receive_one d m)

-- Every selection stands under its own outcome.
abbrev pub IsKeyed : JsMap OddsSelection → Type 0
IsKeyed [] = Unit
IsKeyed ((k, s) ∷ m) = (s.outcome_id ≡ k) × IsKeyed m

set-IsKeyed :
    (s : OddsSelection) (m : JsMap OddsSelection) → IsKeyed m → IsKeyed (set s.outcome_id s m)
unfolding set
set-IsKeyed s [] h = (refl, tt)
set-IsKeyed s ((k, t) ∷ m) h = ground (arith, eq_iff k s.outcome_id, set-IsKeyed s m h.1)

set_all-IsKeyed :
    (l : List OddsSelection) (m : JsMap OddsSelection)
    → IsKeyed m
    → IsKeyed (set_all (keyed_by_outcome l) m)
unfolding set_all keyed_by_outcome
set_all-IsKeyed [] m h = h
set_all-IsKeyed (s ∷ l) m h = set_all-IsKeyed l (set s.outcome_id s m) (set-IsKeyed s m h)

pub selection_map-IsKeyed : (snapshot : OddsSnapshot) → IsKeyed (selection_map snapshot)
unfolding selection_map
selection_map-IsKeyed snapshot = set_all-IsKeyed snapshot.selections [] tt

pub selection_map-IsUnique : (snapshot : OddsSnapshot) → IsUnique (selection_map snapshot)
unfolding selection_map
selection_map-IsUnique snapshot = set_all-IsUnique (keyed_by_outcome snapshot.selections) [] tt

selection_from_delta-upsert :
    (snapshot : OddsSnapshot) (s : OddsSelection)
    → selection_from_delta (delta_of snapshot s s.suspended upsert) ≡ s
unfolding delta_of selection_from_delta
selection_from_delta-upsert snapshot s = refl

-- What the receiver holds of an outcome after the upserts.
abbrev held :
    Option OddsSelection → Option OddsSelection → Option OddsSelection → Option OddsSelection
held none prev r = r
held (some s) prev r = if needs_upsert prev s then some s else r

held-cons :
    (k id : String) (s : OddsSelection) (previous next m : JsMap OddsSelection)
    → s.outcome_id ≡ k
    → has k next ≡ false
    → held
        (get id next)
        (get id previous)
        (get id (if needs_upsert (get k previous) s then set s.outcome_id s m else m))
      ≡ held (get id ((k, s) ∷ next)) (get id previous) (get id m)
unfolding get
held-cons k id s previous next m key fresh =
    ground (arith, get-set s.outcome_id id s m, eq_iff k id, eq_iff s.outcome_id id, has-get k next)

removed-cons :
    (k id : String) (s : OddsSelection) (next previous m : JsMap OddsSelection)
    → s.outcome_id ≡ k
    → (if has id next
        then get id (if has k next then m else delete s.outcome_id m)
        else if has id previous
        then none
        else get id (if has k next then m else delete s.outcome_id m))
      ≡ (if has id next then get id m else if has id ((k, s) ∷ previous) then none else get id m)
unfolding has
removed-cons k id s next previous m key =
    ground (arith, get-delete s.outcome_id id m, eq_iff k id, eq_iff s.outcome_id id)

module _ (snapshot : OddsSnapshot) where
  receive-upsert :
      (s : OddsSelection) (m : JsMap OddsSelection)
      → receive_one (delta_of snapshot s s.suspended upsert) m ≡ set s.outcome_id s m
  unfolding receive_one delta_of selection_from_delta
  receive-upsert s m = refl

  receive-remove :
      (s : OddsSelection) (m : JsMap OddsSelection)
      → receive_one (delta_of snapshot s true remove) m ≡ delete s.outcome_id m
  unfolding receive_one delta_of
  receive-remove s m = refl

  receive-upserts-cons :
      (previous next m : JsMap OddsSelection) (k : String) (s : OddsSelection)
      → receive (upserts snapshot previous ((k, s) ∷ next)) m
        ≡ receive
            (upserts snapshot previous next)
            (if needs_upsert (get k previous) s then set s.outcome_id s m else m)
  unfolding receive upserts
  receive-upserts-cons previous next m k s = ground (arith, receive-upsert s m)

  get-receive-upserts :
      (previous next m : JsMap OddsSelection) (id : String)
      → IsUnique next
      → IsKeyed next
      → get id (receive (upserts snapshot previous next) m)
        ≡ held (get id next) (get id previous) (get id m)
  get-receive-upserts previous [] m id u h = unfold receive upserts get in refl
  get-receive-upserts previous ((k, s) ∷ next) m id (fresh, u) (key, h) =
      rw
        (
          receive-upserts-cons previous next m k s,
          get-receive-upserts previous next
              (if needs_upsert (get k previous) s then set s.outcome_id s m else m) id u h,
        )
        (held-cons k id s previous next m key fresh)

  receive-removals-cons :
      (next previous m : JsMap OddsSelection) (k : String) (s : OddsSelection)
      → receive (removals snapshot next ((k, s) ∷ previous)) m
        ≡ receive
            (removals snapshot next previous)
            (if has k next then m else delete s.outcome_id m)
  unfolding receive removals
  receive-removals-cons next previous m k s = ground (arith, receive-remove s m)

  get-receive-removals :
      (next previous m : JsMap OddsSelection) (id : String)
      → IsKeyed previous
      → get id (receive (removals snapshot next previous) m)
        ≡ (if has id next then get id m else if has id previous then none else get id m)
  get-receive-removals next [] m id h = unfold receive removals has in ground arith
  get-receive-removals next ((k, s) ∷ previous) m id (key, h) =
      rw
        (
          receive-removals-cons next previous m k s,
          get-receive-removals next previous (if has k next then m else delete s.outcome_id m) id h,
        )
        (removed-cons k id s next previous m key)

  Agrees-held :
      (n p r : Option OddsSelection)
      → Agrees r p
      → Agrees (if is_some n then held n p r else if is_some p then none else held n p r) n
  unfolding needs_upsert
  Agrees-held none none none h = tt
  Agrees-held none (some p) r h = tt
  Agrees-held (some s) none none h = SameQuote-refl s
  Agrees-held (some s) (some p) (some r) h = elim (Bool-cases (quote_changed p s)) [
    | inl sent ↦ rw sent (SameQuote-refl s)
    | inr kept ↦ rw kept (SameQuote-trans h (unchanged-SameQuote p s kept))
  ]
  Agrees-held _ _ _ h = absurd h

  -- One round of the stream: a receiver in step with `previous` is in step with `next` after the
  -- deltas.
  receive-build_deltas-ShowsSame :
      (previous next m : JsMap OddsSelection)
      → IsUnique next
      → IsKeyed next
      → IsKeyed previous
      → ShowsSame m previous
      → ShowsSame (receive (build_deltas snapshot previous next) m) next
  unfolding build_deltas
  receive-build_deltas-ShowsSame previous next m u kn kp h id =
      rw
        (
          receive-append,
          get-receive-removals next previous (receive (upserts snapshot previous next) m) id kp,
          get-receive-upserts previous next m id u kn,
          has-get,
          has-get,
        )
        (Agrees-held (get id next) (get id previous) (get id m) (h id))

-- The deltas from one snapshot to the next bring a receiver from the quotes of the first to those
-- of the second, for every outcome: what is gone is gone, and what is there has the same odds, raw
-- odds, format, provider reference, name, stake and suspension.
pub receive-build_deltas :
    (before after : OddsSnapshot)
    → ShowsSame
        (receive
          (build_deltas after (selection_map before) (selection_map after))
          (selection_map before))
        (selection_map after)
receive-build_deltas before after =
    receive-build_deltas-ShowsSame after (selection_map before) (selection_map after)
      (selection_map before) (selection_map-IsUnique after) (selection_map-IsKeyed after)
      (selection_map-IsKeyed before) (Agrees-refl (selection_map before))
