-- ===== src/Sink/Stream/Bootstrap.antt =====
-- A bootstrap on an open socket: what is sent, in which numbers and in which batches
-- (`sendBootstrapSnapshot` of collector/shared/src/backend/backend-collector-stream-sink.ts).
use surebet.Base.{
  ℕ, zero, suc, ◌+◌, ◌≤◌, ◌≡◌, refl, sym, ap, ◌∙◌, String, true, List, [], ◌∷◌, ◌++◌, map, arith,
  length, drop, take-append-drop, length-take, length-append, length-map, append_assoc, append-nil,
  All,
}
use mathlib.Core.Path.{ap₂}
use surebet.Base.Outcome.{returned, Method, ◌>>◌}
use surebet.Contracts.Odds.{CollectorSource, OddsSnapshot}
use surebet.Sink.Stream.{
  Wire, QuoteItem, Frame, snapshot_begin, quote_upsert_batch, snapshot_commit, Stream, quote_item,
  send, batches, send_batches, send_bootstrap_snapshot,
}

pub concat {ℓ} : {A : Type ℓ} → List (List A) → List A
concat [] = []
concat (xs ∷ rest) = xs ++ concat rest

-- A batch as the backend takes it: 1 to 200 items.
abbrev pub IsBatch {ℓ} : {A : Type ℓ} → List A → Type 0
IsBatch batch = (1 ≤ length batch) × (length batch ≤ 200)

module _ {ℓ} {A : Type ℓ} where
  length-drop-le : (n : ℕ) (x : A) (xs : List A) → length (drop (suc n) (x ∷ xs)) ≤ length xs
  length-drop-le zero x xs = omega arith
  length-drop-le (suc n) x [] = omega arith
  length-drop-le (suc n) x (y ∷ xs) = omega (arith, length-drop-le n y xs)

  -- With fuel for its length, the slices of a list are the list again.
  concat-batches : (fuel : ℕ) (xs : List A) → length xs ≤ fuel → concat (batches fuel xs) ≡ xs
  unfolding concat batches
  concat-batches zero [] h = refl
  concat-batches zero (x ∷ xs) h = absurd (omega arith)
  concat-batches (suc fuel) [] h = refl
  concat-batches (suc fuel) (x ∷ xs) h =
      rw (concat-batches fuel (drop 200 (x ∷ xs)) (omega (arith, length-drop-le 199 x xs)))
        (take-append-drop 200 (x ∷ xs))

  batches-IsBatch : (fuel : ℕ) (xs : List A) → All IsBatch (batches fuel xs)
  unfolding batches
  batches-IsBatch zero xs = tt
  batches-IsBatch (suc fuel) [] = tt
  batches-IsBatch (suc fuel) (x ∷ xs) = (
    (omega (arith, length-take 200 (x ∷ xs)), omega (arith, length-take 200 (x ∷ xs))),
    batches-IsBatch fuel (drop 200 (x ∷ xs)),
  )

-- The frames of the batches, numbered from after `seq`.
pub batch_frames : String → ℕ → String → CollectorSource → List (List QuoteItem) → List Frame
batch_frames session seq id source [] = []
batch_frames session seq id source (batch ∷ rest) =
    quote_upsert_batch session (seq + 1) id source batch
    ∷ batch_frames session (seq + 1) id source rest

-- The frames of a bootstrap after number `seq`.
pub bootstrap_frames : String → ℕ → String → OddsSnapshot → List (List QuoteItem) → List Frame
bootstrap_frames session seq id snapshot groups =
    snapshot_begin session (seq + 1) id snapshot.collected_at
      ∷ batch_frames session (seq + 1) id snapshot.source groups
    ++ snapshot_commit session (seq + 2 + length groups) id snapshot.collected_at
        (length snapshot.selections)
      ∷ []

-- A stream after some frames.
abbrev pub sent_after : List Frame → Stream → Stream
sent_after frames s = record s { seq = s.seq + length frames; sent = s.sent ++ frames }

length-batch_frames :
    (session : String) (seq : ℕ) (id : String) (source : CollectorSource)
    (groups : List (List QuoteItem))
    → length (batch_frames session seq id source groups) ≡ length groups
unfolding batch_frames
length-batch_frames session seq id source [] = refl
length-batch_frames session seq id source (g ∷ groups) =
    ap suc (length-batch_frames session (seq + 1) id source groups)

sent_after-append :
    (xs ys : List Frame) (s : Stream) → sent_after ys (sent_after xs s) ≡ sent_after (xs ++ ys) s
sent_after-append xs ys s =
    ap₂ (λ n l. record s { seq = n; sent = l }) (omega (arith, length-append xs ys))
      (append_assoc s.sent xs ys)

sent_after-nil : (s : Stream) → s ≡ sent_after [] s
sent_after-nil s =
    ap₂ (λ n l. record s { seq = n; sent = l }) (omega arith) (sym (append-nil s.sent))

send-sent :
    (frame : String → ℕ → Frame) (s : Stream)
    → s.is_open ≡ true
    → send frame s ≡ (returned tt, sent_after (frame s.session_id (s.seq + 1) ∷ []) s)
unfolding send
send-sent frame s h = rw h refl

then-sent :
    (m next : Method Stream (Unit {0})) (s : Stream) (xs ys : List Frame)
    → m s ≡ (returned tt, sent_after xs s)
    → next (sent_after xs s) ≡ (returned tt, sent_after ys (sent_after xs s))
    → (m >> next) s ≡ (returned tt, sent_after (xs ++ ys) s)
then-sent m next s xs ys h k = rw h (k ∙ ap (λ t. (returned tt, t)) (sent_after-append xs ys s))

send_batches-sent :
    (id : String) (source : CollectorSource) (groups : List (List QuoteItem)) (s : Stream)
    → s.is_open ≡ true
    → send_batches id source groups s
      ≡ (returned tt, sent_after (batch_frames s.session_id s.seq id source groups) s)
unfolding send_batches batch_frames
send_batches-sent id source [] s h = ap (λ t. (returned tt, t)) (sent_after-nil s)
send_batches-sent id source (g ∷ groups) s h =
    then-sent (send (λ session seq. quote_upsert_batch session seq id source g))
      (send_batches id source groups) s
      (quote_upsert_batch s.session_id (s.seq + 1) id source g ∷ [])
      (batch_frames s.session_id (s.seq + 1) id source groups)
      (send-sent (λ session seq. quote_upsert_batch session seq id source g) s h)
      (send_batches-sent id source groups
        (sent_after (quote_upsert_batch s.session_id (s.seq + 1) id source g ∷ []) s) h)

-- The items of a bootstrap, in batches.
pub groups_of : Wire → OddsSnapshot → List (List QuoteItem)
groups_of wire snapshot =
    batches (length (map (quote_item wire snapshot) snapshot.selections))
      (map (quote_item wire snapshot) snapshot.selections)

send_bootstrap_snapshot-sent :
    (wire : Wire) (id : String) (snapshot : OddsSnapshot) (s : Stream)
    → s.is_open ≡ true
    → send_bootstrap_snapshot wire id snapshot s ≡ (
      returned tt,
      sent_after (bootstrap_frames s.session_id s.seq id snapshot (groups_of wire snapshot)) s,
    )
unfolding send_bootstrap_snapshot bootstrap_frames groups_of
send_bootstrap_snapshot-sent wire id snapshot s h =
    let start = send (λ session seq. snapshot_begin session seq id snapshot.collected_at) in
    let begun =
      snapshot_begin s.session_id (s.seq + 1) id snapshot.collected_at
      ∷ batch_frames s.session_id (s.seq + 1) id snapshot.source (groups_of wire snapshot) in
    then-sent (start >> send_batches id snapshot.source (groups_of wire snapshot)) (send commit) s
      begun (commit s.session_id (s.seq + 2 + length (groups_of wire snapshot)) ∷ [])
      (then-sent start (send_batches id snapshot.source (groups_of wire snapshot)) s
        (snapshot_begin s.session_id (s.seq + 1) id snapshot.collected_at ∷ [])
        (batch_frames s.session_id (s.seq + 1) id snapshot.source (groups_of wire snapshot))
        (send-sent (λ session seq. snapshot_begin session seq id snapshot.collected_at) s h)
        (send_batches-sent id snapshot.source (groups_of wire snapshot)
          (sent_after (snapshot_begin s.session_id (s.seq + 1) id snapshot.collected_at ∷ []) s) h))
      (send-sent commit (sent_after begun s) h
        ∙ ap (λ n. (returned tt, sent_after (commit s.session_id n ∷ []) (sent_after begun s)))
            (omega (
              arith,
              length-batch_frames s.session_id (s.seq + 1) id snapshot.source
                  (groups_of wire snapshot),
            )))
  where
    commit : String → ℕ → Frame
    commit session seq =
        snapshot_commit session seq id snapshot.collected_at (length snapshot.selections)

-- A bootstrap on an open socket sends its begin, batches and commit with the next numbers in a row;
-- the batches hold 1 to 200 items each, together the items of all selections in their order, and as
-- many as the commit says.
pub send_bootstrap_snapshot_complete :
    (wire : Wire) (id : String) (snapshot : OddsSnapshot) (s : Stream)
    → s.is_open ≡ true
    → (groups : List (List QuoteItem)) × (send_bootstrap_snapshot wire id snapshot s
        ≡ (returned tt, sent_after (bootstrap_frames s.session_id s.seq id snapshot groups) s))
      × (concat groups ≡ map (quote_item wire snapshot) snapshot.selections)
      × All IsBatch groups
      × (length (concat groups) ≡ length snapshot.selections)
unfolding groups_of
send_bootstrap_snapshot_complete wire id snapshot s h =
    let items = map (quote_item wire snapshot) snapshot.selections in
    let whole_again = concat-batches (length items) items (omega arith) in
    (
      groups_of wire snapshot,
      send_bootstrap_snapshot-sent wire id snapshot s h,
      whole_again,
      batches-IsBatch (length items) items,
      ap (λ l. length l) whole_again ∙ length-map (quote_item wire snapshot) snapshot.selections,
    )
