-- ===== src/Sink/Push/Numbered.antt =====
-- The numbers and the session of the frames that a connection was given.
use surebet.Base.{
  map, length, ℕ, ◌+◌, ◌≤◌, ◌<◌, String, ◌≡◌, refl, Option, none, some, List, [], ◌∷◌, ◌++◌, All,
  All-append, arith, Bool-cases, inl, inr,
}
use surebet.Base.Outcome.{Outcome, returned, threw, Method, ◌>>=◌, ◌>>◌, continue}
use surebet.Contracts.Odds.{OddsSnapshot, CollectorSource}
use surebet.Sink.Stream.{
  Wire, batches, quote_item, Frame, Stream, QuoteItem, send, send_batches, send_bootstrap_snapshot,
}

-- The number of a frame; `hello` has none.
unfoldable pub number_of : Frame → Option ℕ
number_of (Frame.hello v4 session source account capabilities at) = none
number_of (Frame.snapshot_begin session seq id at) = some seq
number_of (Frame.quote_upsert_batch session seq id source items) = some seq
number_of (Frame.snapshot_commit session seq id at count) = some seq
number_of (Frame.quote_remove session seq at source ids markers) = some seq
number_of (Frame.quote_delta_batch session seq source items) = some seq
number_of (Frame.fixture_market_snapshot session seq fields) = some seq
number_of (Frame.fixture_observed_batch session seq at source items) = some seq
number_of (Frame.heartbeat session seq at) = some seq
number_of (Frame.account_balance session seq account at source balance) = some seq
number_of (Frame.confirm_quote_response session seq request at found error selection) = some seq
number_of (Frame.bet_response session seq account source response) = some seq
number_of (Frame.simulated_failure session seq phase reply) = some seq
number_of (Frame.simulated_response session seq phase command key response) = some seq

unfoldable pub session_of : Frame → String
session_of (Frame.hello v4 session source account capabilities at) = session
session_of (Frame.snapshot_begin session seq id at) = session
session_of (Frame.quote_upsert_batch session seq id source items) = session
session_of (Frame.snapshot_commit session seq id at count) = session
session_of (Frame.quote_remove session seq at source ids markers) = session
session_of (Frame.quote_delta_batch session seq source items) = session
session_of (Frame.fixture_market_snapshot session seq fields) = session
session_of (Frame.fixture_observed_batch session seq at source items) = session
session_of (Frame.heartbeat session seq at) = session
session_of (Frame.account_balance session seq account at source balance) = session
session_of (Frame.confirm_quote_response session seq request at found error selection) = session
session_of (Frame.bet_response session seq account source response) = session
session_of (Frame.simulated_failure session seq phase reply) = session
session_of (Frame.simulated_response session seq phase command key response) = session

-- The numbers rise, from above a first one.
abbrev pub Rises : ℕ → List (Option ℕ) → Type 0
Rises low [] = Unit
Rises low (none ∷ numbers) = Rises low numbers
Rises low (some n ∷ numbers) = (low < n) × Rises n numbers

abbrev last_number : ℕ → List (Option ℕ) → ℕ
last_number low [] = low
last_number low (none ∷ numbers) = last_number low numbers
last_number low (some n ∷ numbers) = last_number n numbers

abbrev pub numbers : List Frame → List (Option ℕ)
numbers [] = []
numbers (f ∷ frames) = number_of f ∷ numbers frames

-- The frames that the connection was given are numbered upwards, up to the last number drawn at
-- most, and carry its session.
pub record IsNumbered (t : Stream) : Type 0 where
  pub rises : Rises 0 (numbers t.sent)
  pub bounded : last_number 0 (numbers t.sent) ≤ t.seq
  pub in_session : All (λ f. session_of f ≡ t.session_id) t.sent

Rises-snoc :
    (low : ℕ) (frames : List Frame) (f : Frame) (n : ℕ)
    → number_of f ≡ some n
    → last_number low (numbers frames) < n
    → Rises low (numbers frames)
    → Rises low (numbers (frames ++ f ∷ [])) × (last_number low (numbers (frames ++ f ∷ [])) ≡ n)
Rises-snoc low [] f n e lt h = rw e ((omega arith, tt), refl)
Rises-snoc low (g ∷ frames) f n e lt h =
    step (number_of g) (λ bound. Rises-snoc bound frames f n e) lt h
  where
    step :
        (o : Option ℕ)
        → ((bound : ℕ)
            → last_number bound (numbers frames) < n
            → Rises bound (numbers frames)
            → Rises bound (numbers (frames ++ f ∷ []))
              × (last_number bound (numbers (frames ++ f ∷ [])) ≡ n))
        → last_number low (o ∷ numbers frames) < n
        → Rises low (o ∷ numbers frames)
        → Rises low (o ∷ numbers (frames ++ f ∷ []))
          × (last_number low (o ∷ numbers (frames ++ f ∷ [])) ≡ n)
    step none rest lt' h' = rest low lt' h'
    step (some k) rest lt' h' = let (r, l) = rest k lt' h'.1 in ((h'.0, r), l)

-- A call keeps what holds of the object.
abbrev pub Preserves {ℓ} : {S A : Type ℓ} → (S → Type ℓ) → Method S A → Type ℓ
Preserves {S} P m = (s : S) → P s → P (m s).1

module _ {S A B : Type 0} (P : S → Type 0) where
  pub continue-Preserves :
      (f : A → Method S B)
      → ((a : A) → Preserves P (f a))
      → (o : Outcome A) (s : S) → P s
      → P (continue f o s).1
  continue-Preserves f k (returned a) s p = k a s p
  continue-Preserves f k (threw e) s p = p

  pub >>=-Preserves :
      (m : Method S A) (f : A → Method S B)
      → Preserves P m
      → ((a : A) → Preserves P (f a))
      → Preserves P (m >>= f)
  >>=-Preserves m f h k s p = continue-Preserves f k (m s).0 (m s).1 (h s p)

module _ {S : Type 0} (P : S → Type 0) where
  pub then-Preserves :
      (m k : Method S (Unit {0})) → Preserves P m → Preserves P k → Preserves P (m >> k)
  then-Preserves m k h g = >>=-Preserves P m (λ _. k) h (λ _. g)

pub send-IsNumbered :
    (frame : String → ℕ → Frame)
    → ((session : String) (seq : ℕ)
        → (number_of (frame session seq) ≡ some seq) × (session_of (frame session seq) ≡ session))
    → Preserves IsNumbered (send frame)
unfolding send
send-IsNumbered frame is t v = elim (Bool-cases t.is_open) [
  | inl e ↦
      let f = frame t.session_id (t.seq + 1) in
      let (number, session) = is t.session_id (t.seq + 1) in
      let (rises, last) =
        Rises-snoc 0 t.sent f (t.seq + 1) number (omega (arith, v.bounded)) v.rises in
      rw (e, send)
        (record {
          rises = rises;
          bounded = omega (arith, last);
          in_session =
              All-append (λ g. session_of g ≡ t.session_id) t.sent (f ∷ []) v.in_session
                (session, tt);
        })
  | inr e ↦
      rw (e, send)
        (record { rises = v.rises; bounded = omega (arith, v.bounded); in_session = v.in_session })
]

send_batches-IsNumbered :
    (id : String) (source : CollectorSource) (groups : List (List QuoteItem))
    → Preserves IsNumbered (send_batches id source groups)
unfolding send_batches number_of session_of
send_batches-IsNumbered id source [] = λ t v. v
send_batches-IsNumbered id source (g ∷ groups) =
    >>=-Preserves IsNumbered
      (send (λ session seq. Frame.quote_upsert_batch session seq id source g))
      (λ _. send_batches id source groups) (send-IsNumbered _ (λ session seq. (refl, refl)))
      (λ _. send_batches-IsNumbered id source groups)

pub bootstrap-IsNumbered :
    (wire : Wire) (id : String) (snapshot : OddsSnapshot)
    → Preserves IsNumbered (send_bootstrap_snapshot wire id snapshot)
unfolding send_bootstrap_snapshot number_of session_of
bootstrap-IsNumbered wire id snapshot =
    let begin = send (λ session seq. Frame.snapshot_begin session seq id snapshot.collected_at) in
    let items = map (quote_item wire snapshot) snapshot.selections in
    let groups = send_batches id snapshot.source (batches (length items) items) in
    let commit = send (λ session seq.
      Frame.snapshot_commit session seq id snapshot.collected_at (length snapshot.selections)) in
    then-Preserves IsNumbered (begin >> groups) commit
      (then-Preserves IsNumbered begin groups (send-IsNumbered _ (λ session seq. (refl, refl)))
        (send_batches-IsNumbered id snapshot.source (batches (length items) items)))
      (send-IsNumbered _ (λ session seq. (refl, refl)))
