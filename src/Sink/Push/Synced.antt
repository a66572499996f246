-- ===== src/Sink/Push/Synced.antt =====
-- A connection of the stream sink that needs no bootstrap, and what keeps it so.
use surebet.Base.{
  map, length, ℕ, ◌+◌, String, Bool, true, false, ◌||◌, ◌≡◌, refl, List, [], ◌∷◌, ◌++◌, any,
  any-append, arith, Bool-cases, inl, inr,
}
use surebet.Base.Outcome.{Outcome, returned, threw, Method, ◌>>◌, continue}
use surebet.Contracts.Odds.{OddsSnapshot, CollectorSource}
use surebet.Sink.Stream.{
  Wire, batches, quote_item, Frame, Stream, QuoteItem, send, send_batches, send_bootstrap_snapshot,
}
use surebet.Sink.Push.Numbered.{Preserves, then-Preserves}

abbrev is_commit : Frame → Bool
is_commit (Frame.snapshot_commit session seq id at count) = true
is_commit _ = false

-- The connection is open and was given the commit of a bootstrap.
pub record IsCommitted (t : Stream) : Type 0 where
  pub live : t.is_open ≡ true
  pub committed : any is_commit t.sent ≡ true

-- A connection that no resync is pending for was given a bootstrap.
abbrev pub Synced : Bool → Stream → Type 0
Synced true t = Unit
Synced false t = IsCommitted t

committed-snoc :
    (frames : List Frame) (f : Frame)
    → (any is_commit frames || is_commit f) ≡ true
    → any is_commit (frames ++ f ∷ []) ≡ true
committed-snoc frames f h = ground (arith, any-append is_commit frames (f ∷ []))

or-true : (a b : Bool) → a ≡ true → (a || b) ≡ true
or-true a b h = ground arith

true-or : (a b : Bool) → b ≡ true → (a || b) ≡ true
true-or a b h = ground arith

pub send-IsCommitted : (frame : String → ℕ → Frame) → Preserves IsCommitted (send frame)
unfolding send
send-IsCommitted frame t v =
    let f = frame t.session_id (t.seq + 1) in
    rw (v.live, send)
      (record {
        live = refl;
        committed =
            committed-snoc t.sent f (or-true (any is_commit t.sent) (is_commit f) v.committed);
      })

send_commits :
    (frame : String → ℕ → Frame)
    → ((session : String) (seq : ℕ) → is_commit (frame session seq) ≡ true)
    → (t : Stream) → (send frame t).0 ≡ returned tt
    → IsCommitted (send frame t).1
unfolding send
send_commits frame is t = elim (Bool-cases t.is_open) [
  | inl e ↦
      let f = frame t.session_id (t.seq + 1) in
      rw (e, send)
        (λ _. record {
          live = refl;
          committed =
              committed-snoc t.sent f
                (true-or (any is_commit t.sent) (is_commit f) (is t.session_id (t.seq + 1)));
        })
  | inr e ↦ rw (e, send) (λ h. absurd (ground (arith, h)))
]

send_batches-IsCommitted :
    (id : String) (source : CollectorSource) (groups : List (List QuoteItem))
    → Preserves IsCommitted (send_batches id source groups)
unfolding send_batches
send_batches-IsCommitted id source [] = λ t v. v
send_batches-IsCommitted id source (g ∷ groups) =
    then-Preserves IsCommitted
      (send (λ session seq. Frame.quote_upsert_batch session seq id source g))
      (send_batches id source groups) (send-IsCommitted _)
      (send_batches-IsCommitted id source groups)

pub bootstrap-IsCommitted :
    (wire : Wire) (id : String) (snapshot : OddsSnapshot)
    → Preserves IsCommitted (send_bootstrap_snapshot wire id snapshot)
unfolding send_bootstrap_snapshot
bootstrap-IsCommitted wire id snapshot =
    let begin = send (λ session seq. Frame.snapshot_begin session seq id snapshot.collected_at) in
    let items = map (quote_item wire snapshot) snapshot.selections in
    let groups = send_batches id snapshot.source (batches (length items) items) in
    let commit = send (λ session seq.
      Frame.snapshot_commit session seq id snapshot.collected_at (length snapshot.selections)) in
    then-Preserves IsCommitted (begin >> groups) commit
      (then-Preserves IsCommitted begin groups (send-IsCommitted _)
        (send_batches-IsCommitted id snapshot.source (batches (length items) items)))
      (send-IsCommitted _)

-- What a call leaves when it returns
abbrev pub Leaves {ℓ} : {S : Type ℓ} → (S → Type ℓ) → Method S (Unit {ℓ}) → Type ℓ
Leaves {S = S} P m = (s : S) → (m s).0 ≡ returned tt → P (m s).1

module _ {S : Type 0} (P : S → Type 0) where
  continue-Leaves :
      (k : Method S (Unit {0}))
      → Leaves P k
      → (o : Outcome (Unit {0})) (s : S) → (continue (λ _. k) o s).0 ≡ returned tt
      → P (continue (λ _. k) o s).1
  continue-Leaves k h (returned a) s e = h s e
  continue-Leaves k h (threw error) s e = absurd (ground (arith, e))

  pub then-Leaves : (m k : Method S (Unit {0})) → Leaves P k → Leaves P (m >> k)
  then-Leaves m k h s e = continue-Leaves k h (m s).0 (m s).1 e

  pub left-Leaves : (m k : Method S (Unit {0})) → Leaves P m → Preserves P k → Leaves P (m >> k)
  left-Leaves m k h g s e = left (m s).0 (m s).1 (h s) e
    where
      left :
          (o : Outcome (Unit {0})) (t : S)
          → (o ≡ returned tt → P t)
          → (continue (λ _. k) o t).0 ≡ returned tt
          → P (continue (λ _. k) o t).1
      left (returned a) t p e = g t (p refl)
      left (threw error) t p e = absurd (ground (arith, e))

pub bootstrap_commits :
    (wire : Wire) (id : String) (snapshot : OddsSnapshot)
    → Leaves IsCommitted (send_bootstrap_snapshot wire id snapshot)
unfolding send_bootstrap_snapshot
bootstrap_commits wire id snapshot =
    let begin = send (λ session seq. Frame.snapshot_begin session seq id snapshot.collected_at) in
    let items = map (quote_item wire snapshot) snapshot.selections in
    let groups = send_batches id snapshot.source (batches (length items) items) in
    let commit = send (λ session seq.
      Frame.snapshot_commit session seq id snapshot.collected_at (length snapshot.selections)) in
    then-Leaves IsCommitted (begin >> groups) commit (send_commits _ (λ session seq. refl))
