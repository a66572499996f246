-- ===== src/Sink/Push/Sound.antt =====
-- What the stream sink keeps whatever it does: its frames are numbered, and a connection that no
-- resync is pending for was given a bootstrap.
use surebet.Base.{
  suc, ℕ, String, Bool, true, false, ◌≡◌, refl, Option, none, some, List, [], ◌∷◌, arith,
  if◌then◌else◌,
}
use surebet.Base.Outcome.{Outcome, returned, threw, Method, ◌>>◌, continue}
use surebet.Contracts.Odds.{OddsSnapshot, FixtureMarketSnapshot, OddsSelection}
use surebet.Sink.Payloads.{MarketSnapshotFields}
use surebet.Sink.Stream.{Frame, Stream, send, send_bootstrap_snapshot}
use surebet.Sink.Connection.{
  Identity, Turn, Answer, Sink, on_stream, change, send_frame, ensure_connected, answered, closed,
  start_connection, acknowledges,
}
use surebet.Sink.FixtureFrames.{
  Outside, send_with_metadata, send_fixture, send_fixture_market_snapshot,
  send_fixture_market_snapshots,
}
use surebet.Sink.Push.{synced}
use surebet.Sink.Push.Numbered.{
  number_of, session_of, IsNumbered, Preserves, continue-Preserves, then-Preserves, send-IsNumbered,
  bootstrap-IsNumbered,
}
use surebet.Sink.Push.Synced.{
  IsCommitted, Synced, Leaves, then-Leaves, left-Leaves, send-IsCommitted, bootstrap-IsCommitted,
  bootstrap_commits,
}

abbrev pub IsSound : Sink → Type 0
IsSound s = IsNumbered s.stream × Synced s.pending_resync s.stream

abbrev pub Sound : Outcome (Unit {0}) × Sink → Type 0
Sound r = IsSound r.1

pub if-Sound :
    (b : Bool) (x y : Outcome (Unit {0}) × Sink) → Sound x → Sound y → Sound (if b then x else y)
if-Sound true x y h k = h
if-Sound false x y h k = k

pub then-IsSound :
    (m k : Method Sink (Unit {0}))
    → Preserves IsSound m
    → Preserves IsSound k
    → Preserves IsSound (m >> k)
then-IsSound m k h g = then-Preserves IsSound m k h g

Synced-after :
    (pending : Bool) (t t' : Stream)
    → (IsCommitted t → IsCommitted t')
    → Synced pending t
    → Synced pending t'
Synced-after true t t' h w = tt
Synced-after false t t' h w = h w

on_stream-IsSound :
    (m : Method Stream (Unit {0}))
    → Preserves IsNumbered m
    → Preserves IsCommitted m
    → Preserves IsSound (on_stream m)
on_stream-IsSound m h k s (v, w) =
    (h s.stream v, Synced-after s.pending_resync s.stream (m s.stream).1 (k s.stream) w)

pub bootstrap-IsSound :
    (outside : Outside) (id : String) (snapshot : OddsSnapshot)
    → Preserves IsSound (on_stream (send_bootstrap_snapshot outside.wire id snapshot))
bootstrap-IsSound outside id snapshot =
    on_stream-IsSound (send_bootstrap_snapshot outside.wire id snapshot)
      (bootstrap-IsNumbered outside.wire id snapshot)
      (bootstrap-IsCommitted outside.wire id snapshot)

pub send_frame-IsSound :
    (frame : String → ℕ → Frame)
    → ((session : String) (seq : ℕ)
        → (number_of (frame session seq) ≡ some seq) × (session_of (frame session seq) ≡ session))
    → Preserves IsSound (send_frame frame)
send_frame-IsSound frame is =
    on_stream-IsSound (send frame) (send-IsNumbered frame is) (send-IsCommitted frame)

pub closed-IsSound : (s : Sink) → IsSound s → IsSound (closed s)
unfolding closed
closed-IsSound s (v, w) =
    (record { rises = v.rises; bounded = v.bounded; in_session = v.in_session }, tt)

answered-IsSound : (me : Identity) (answer : Answer) → Preserves IsSound (answered me answer)
unfolding answered
answered-IsSound me Answer.socket_error s v = closed-IsSound s v
answered-IsSound me Answer.socket_closed s v = closed-IsSound s v
answered-IsSound me (Answer.acknowledged ack) s v =
    if-Sound (acknowledges me ack) _ _ v (closed-IsSound s v)

start-IsSound : (me : Identity) (turn : Turn) (s : Sink) → IsSound (start_connection me turn s)
unfolding start_connection number_of session_of
start-IsSound me turn s =
    (record { rises = tt; bounded = omega arith; in_session = (refl, tt) }, tt)

pub ensure_connected-IsSound :
    (me : Identity) (turn : Turn) → Preserves IsSound (ensure_connected me turn)
unfolding ensure_connected
ensure_connected-IsSound me turn s v =
    if-Sound s.stream.is_open _ _ v
      (answered-IsSound me turn.answer (start_connection me turn s) (start-IsSound me turn s))

-- What every frame of a fixture's markets keeps of the stream, the sending of the markets keeps.
module _ (outside : Outside) (me : Identity) (Kept : Bool → Stream → Type 0)
    (sends : (fields : MarketSnapshotFields)
      → Preserves
          (λ (s : Sink). Kept s.pending_resync s.stream)
          (send_frame (λ session seq. Frame.fixture_market_snapshot session seq fields))) where
  abbrev Keeps : Sink → Type 0
  Keeps s = Kept s.pending_resync s.stream

  pub send_snapshot-Keeps :
      (snapshot : FixtureMarketSnapshot)
      → Preserves Keeps (send_fixture_market_snapshot outside snapshot)
  unfolding send_fixture_market_snapshot
  send_snapshot-Keeps snapshot s v =
      continue-Preserves Keeps (λ _. change _) (λ _ t w. w) _ _
        (sends _ (record s { batch_counter = suc s.batch_counter }) v)

  with_metadata-Keeps :
      (at : String) (selections : List OddsSelection) (metadata : Option OddsSelection)
      → Preserves Keeps (send_with_metadata outside me at selections metadata)
  unfolding send_with_metadata
  with_metadata-Keeps at selections none = λ s v. v
  with_metadata-Keeps at selections (some metadata) = send_snapshot-Keeps _

  send_fixture-Keeps :
      (at fixture_id : String) → Preserves Keeps (send_fixture outside me at fixture_id)
  unfolding send_fixture
  send_fixture-Keeps at fixture_id s v = with_metadata-Keeps at _ _ s v

  pub send_fixtures-Keeps :
      (at : String) (ids : List String)
      → Preserves Keeps (send_fixture_market_snapshots outside me at ids)
  unfolding send_fixture_market_snapshots
  send_fixtures-Keeps at [] = λ s v. v
  send_fixtures-Keeps at (id ∷ ids) =
      then-Preserves Keeps (send_fixture outside me at id)
        (send_fixture_market_snapshots outside me at ids) (send_fixture-Keeps at id)
        (send_fixtures-Keeps at ids)

module _ (outside : Outside) (me : Identity) where
  sends_markets :
      (fields : MarketSnapshotFields)
      → Preserves IsSound
          (send_frame (λ session seq. Frame.fixture_market_snapshot session seq fields))
  unfolding number_of session_of
  sends_markets fields = send_frame-IsSound _ (λ session seq. (refl, refl))

  pub send_snapshot-IsSound :
      (snapshot : FixtureMarketSnapshot)
      → Preserves IsSound (send_fixture_market_snapshot outside snapshot)
  send_snapshot-IsSound =
      send_snapshot-Keeps outside me (λ pending t. IsNumbered t × Synced pending t) sends_markets

  pub send_fixtures-IsSound :
      (at : String) (ids : List String)
      → Preserves IsSound (send_fixture_market_snapshots outside me at ids)
  send_fixtures-IsSound =
      send_fixtures-Keeps outside me (λ pending t. IsNumbered t × Synced pending t) sends_markets

  send_fixtures-IsCommitted :
      (at : String) (ids : List String)
      → Preserves (λ s. IsCommitted s.stream) (send_fixture_market_snapshots outside me at ids)
  send_fixtures-IsCommitted =
      send_fixtures-Keeps outside me (λ _. IsCommitted)
        (λ fields s.
          send-IsCommitted (λ session seq. Frame.fixture_market_snapshot session seq fields)
            s.stream)

  -- The end of a resync, after what keeps the sink sound and has given the connection a bootstrap
  pub synced-IsSound :
      (m : Method Sink (Unit {0}))
      → Preserves IsSound m
      → Leaves (λ s. IsCommitted s.stream) m
      → Preserves IsSound (m >> synced outside)
  unfolding synced
  synced-IsSound m h leaves s v = finish (m s).0 (m s).1 (h s v) (leaves s)
    where
      finish :
          (o : Outcome (Unit {0})) (t : Sink)
          → IsSound t
          → (o ≡ returned tt → IsCommitted t.stream)
          → IsSound (continue (λ _. synced outside) o t).1
      finish (returned a) t w committed = (w.0, committed refl)
      finish (threw error) t w committed = w

  -- A bootstrap and the markets of fixtures
  pub boot_markets-Leaves :
      (id : String) (snapshot : OddsSnapshot) (at : String) (ids : List String)
      → Leaves
          (λ s. IsCommitted s.stream)
          (on_stream (send_bootstrap_snapshot outside.wire id snapshot)
            >> send_fixture_market_snapshots outside me at ids)
  boot_markets-Leaves id snapshot at ids =
      left-Leaves (λ (s : Sink). IsCommitted s.stream)
        (on_stream (send_bootstrap_snapshot outside.wire id snapshot))
        (send_fixture_market_snapshots outside me at ids)
        (λ s. bootstrap_commits outside.wire id snapshot s.stream)
        (send_fixtures-IsCommitted at ids)

  pub after_boot_markets-Leaves :
      (before : Method Sink (Unit {0})) (id : String) (snapshot : OddsSnapshot) (at : String)
      (ids : List String)
      → Leaves
          (λ s. IsCommitted s.stream)
          (before
            >> on_stream (send_bootstrap_snapshot outside.wire id snapshot)
            >> send_fixture_market_snapshots outside me at ids)
  after_boot_markets-Leaves before id snapshot at ids =
      let boot = on_stream (send_bootstrap_snapshot outside.wire id snapshot) in
      left-Leaves (λ (s : Sink). IsCommitted s.stream) (before >> boot)
        (send_fixture_market_snapshots outside me at ids)
        (then-Leaves (λ (s : Sink). IsCommitted s.stream) before boot
          (λ s. bootstrap_commits outside.wire id snapshot s.stream))
        (send_fixtures-IsCommitted at ids)
