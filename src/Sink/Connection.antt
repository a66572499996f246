-- ===== src/Sink/Connection.antt =====
-- The connection of the stream sink: its state, `ensureConnected`, `startConnection` and the answer
-- to it, of collector/shared/src/backend/backend-collector-stream-sink.ts. The message of a refused
-- acknowledgement goes on with the two identities.
use surebet.Base.{
  ℕ, String, Bool, true, false, not, ◌&&◌, ◌||◌, Option, none, some, [], ◌∷◌, if◌then◌else◌,
}
use surebet.Base.Outcome.{returned, threw, Method}
use surebet.JsMap.{JsMap, empty}
use surebet.Contracts.Odds.{CollectorSource}
use surebet.Sink.Cache.{Cache, empty_cache}
use surebet.Sink.Requests.{Field, FrameSource}
use surebet.Sink.Replies.{PreparedSimulatedSelection, CachedSimulatedPlacement}
use surebet.Sink.Live.{is_text, is_four, source_is, live_capabilities}
use surebet.Sink.Stream.{Frame, hello, Stream, send}

-- The constructor's fields
pub record Identity : Type 0 where
  pub source : CollectorSource
  pub account_id : String
  -- the protocol version is 4, not 3
  pub is_version_4 : Bool
  pub started_at : String

-- The `hello_ack` of a session
pub record HelloAck : Type 0 where
  pub protocol_version : Field
  pub account_id : Field
  pub source : Option FrameSource

-- What comes of a new socket before it is ready
pub data Answer : Type 0 where
  acknowledged : HelloAck → Answer
  socket_error socket_closed : Answer

-- What one operation meets: the random ids that it draws, and the answer to a connection that it
-- opens.
pub record Turn : Type 0 where
  pub session_id : String
  pub snapshot_id : String
  pub answer : Answer

pub record FixtureBatch : Type 0 where
  pub batch_id : String
  pub fingerprint : String

pub record Sink : Type 0 where
  pub stream : Stream
  pub cache : Cache
  pub pending_resync : Bool
  pub prepared : JsMap PreparedSimulatedSelection
  pub simulated_placement_results : JsMap CachedSimulatedPlacement
  pub batch_counter : ℕ
  pub latest_fixture_batches : JsMap FixtureBatch
  pub balance_protocol_warning_emitted : Bool

unfoldable pub new_sink : Sink
new_sink = record {
  stream = record { session_id = ""; seq = 0; is_open = false; sent = [] };
  cache = empty_cache;
  pending_resync = true;
  prepared = empty;
  simulated_placement_results = empty;
  batch_counter = 0;
  latest_fixture_batches = empty;
  balance_protocol_warning_emitted = false;
}

abbrev pub on_stream : Method Stream (Unit {0}) → Method Sink (Unit {0})
on_stream m s = let (o, stream) = m s.stream in (o, record s { stream = stream })

abbrev pub change : (Sink → Sink) → Method Sink (Unit {0})
change f s = (returned tt, f s)

abbrev pub send_frame : (String → ℕ → Frame) → Method Sink (Unit {0})
send_frame frame = on_stream (send frame)

-- The identity of a version 4 acknowledgement
unfoldable pub acknowledges : Identity → HelloAck → Bool
acknowledges me ack =
    not me.is_version_4
    || (is_four ack.protocol_version
        && is_text ack.account_id me.account_id
        && source_is ack.source me.source)

-- `startConnection` up to the frame that greets
unfoldable pub start_connection : Identity → Turn → Sink → Sink
start_connection me turn s = record s {
  stream = record {
    session_id = turn.session_id;
    seq = 0;
    is_open = true;
    sent =
        hello me.is_version_4 turn.session_id me.source
          (if me.is_version_4 then some me.account_id else none)
          (if me.is_version_4 then some live_capabilities else none) me.started_at
        ∷ [];
  };
  pending_resync = true;
  prepared = empty;
}

-- The socket is not open any more.
unfoldable pub closed : Sink → Sink
closed s = record s { stream = record s.stream { is_open = false }; pending_resync = true }

unfoldable pub answered : Identity → Answer → Method Sink (Unit {0})
unfolding acknowledges closed
answered me socket_error s = (threw "collector stream socket error", closed s)
answered me socket_closed s = (threw "collector stream socket closed before hello_ack", closed s)
answered me (acknowledged ack) s =
    if acknowledges me ack
    then (returned tt, s)
    else (threw "collector stream v4 hello_ack identity does not match", closed s)

unfoldable pub ensure_connected : Identity → Turn → Method Sink (Unit {0})
unfolding start_connection answered
ensure_connected me turn s =
    if s.stream.is_open
    then (returned tt, s)
    else answered me turn.answer (start_connection me turn s)
