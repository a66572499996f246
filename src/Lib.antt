-- ===== src/Lib.antt =====
-- The odds collector of the repository, and its bets. Two collectors read the odds of the bookmakers
-- 8xbet and Jun88 from a browser, keep the differences of their snapshots, and stream them to the
-- backend; over the same stream the backend asks for simulated bets and for live ones.
--
-- The parts, and the code that each one is about:
--   Contracts      the data types of collector/shared/src/contracts.ts, with its properties in
--                  snake case; an optional property is an Option, a union of objects a data type.
--   Deltas         selectionMap, buildDeltas and heartbeatOf of
--                  collector/shared/src/bookmakers/streaming-utils.ts: what a poll sends.
--   Sink           BackendCollectorStreamSink of
--                  collector/shared/src/backend/backend-collector-stream-sink.ts. Cache is what the
--                  sink remembers of the odds (replaceLatestSnapshot, applyLatestDeltas); Stream are
--                  the numbered frames of a bootstrap (sendFrame, nextSeq, sendBootstrapSnapshot),
--                  and Payloads the fields of the others; Connection is the state of the sink with
--                  ensureConnected, startConnection and the answer to hello; Markets is
--                  fixtureMarketSnapshotFromSelections, FixtureFrames sendFixtureMarketSnapshot and
--                  fixtureMarketFingerprint; Push are pushBootstrap, pushDelta, heartbeat,
--                  observeFixtureMarketBatches, pushAccountBalance, handleQuoteConfirmation,
--                  replayLatestBootstrapIfNeeded and the frames that ask for a resync, with
--                  Push.Bets, the responses that sendLiveResponse and sendSimulatedResponse send on
--                  the same connection;
--                  Requests and Commands are the parsers of the backend's frames; Simulated are
--                  handleSimulatedSelectOdds and handleSimulatedPlaceBet; Live are handleLivePrepare,
--                  handleLiveCommit, handleLiveCancel and handleLiveReconcile.
--   SimulatedBets  createSimulatedPlaceBetHandler of collector/shared/src/actions.ts: the bookmaker
--                  that Sink.Simulated calls.
--   LiveBets       ProcessLiveBetJournal of collector/shared/src/live-actions.ts, and the classes of
--                  collector/shared/src/bookmakers/jun88-cmd-live-actions.ts (LiveBets.Jun88) and
--                  eightxbet-live-actions.ts (LiveBets.EightXBet): the bookmakers that Sink.Live
--                  calls. LiveBets.Actions is what the two classes write alike.
--   Dashboard      the dashboard's logic. Fixtures is frontend/lib/fixture-identity.ts: Names are the
--                  canonical names of teams, Distance is levenshteinDistance with wordsMatch, Tokens
--                  is the matching of words (participantTokenMatches, matchParticipantToken),
--                  Identity is createFixtureIdentity with fixtureIdentitySimilarity, and Index is
--                  indexFixtureIdentities with uniqueClusterKey. Visible is
--                  frontend/lib/minimum-visible-items.ts, and Profiles is
--                  frontend/lib/opportunity-visibility.ts; Notifications and BrowserNotifications are
--                  the stores frontend/store/realtime-notification-store.ts and
--                  browser-notification-store.ts.
--   Base, JsMap, Number, Doubles, Clock and Unicode are JavaScript's part: texts, errors, Map in
--   insertion order, numbers and time. JsMap.Bounded are the maps of at most 10,000 entries.
--
-- How the code is modelled:
--   * A method takes the object's state and gives an outcome and the new state; an outcome is a
--     value or the message of an error, and a state changed before an error stays changed. The
--     methods of the live classes run one after the other, as SerialLiveBetActions makes them; the
--     handlers of the sink run to their response, and what is awaited in between is one step.
--   * A number is a multiple of one millionth, or NaN or an infinity. Odds, stakes and times have
--     fewer decimals. Where a result turns on the rounding of doubles, the tolerance on odds and the
--     default changed odds, the file Doubles.antt computes in doubles; elsewhere the arithmetic is
--     exact, as it is on whole numbers below 2 ^ 53.
--   * What the browser's page answers is a parameter, call by call: a value or an error. So are
--     SHA-256, upper case, Date.parse, the clock and the match of the 8xbet provider reference.
--     A fingerprint that the code writes as JSON is the record of the fields that it writes.
--   * A field of a frame is what JSON.parse gives: missing, a text, a number, or something else.
--   * What JavaScript does with Unicode (normalize, the classes of letters and marks, localeCompare)
--     is the parameter Unicode of the file Unicode.antt. A similarity of fixtures is an exact quotient.
--   * A method of a store that waits for the browser's user is two steps, up to the wait and after it;
--     anything may happen in between.
--   * A connection of the sink is opened where an operation needs it, with the random session id and
--     the answer that the operation meets; the queue runs one operation after the other, and what the
--     sink hears comes between two operations. A command of a bet brings what the bookmaker answers to
--     it; the response goes out over the connection of that moment.
--   * Fuel: the slices of 200 quotes take as much fuel as there are quotes, and each slice uses one. A
--     search for a matching word has one more than the right words, of which each call sees a new
--     one; the search for a free number of a cluster key has one more than the keys in use. The count of
--     the bits of a number takes the number as fuel, and halves it each time.
--
-- Not modelled: the browser (Playwright, the pages' selectors and scripts); the WebSocket, whose
-- answer to a new connection is a value of the model; the reading of frames as JSON and the choice of
-- their handler; normalizeAsianLine and the start of an event, which are parameters of Sink; the
-- stream's URL and the environment; the parsers of the bookmakers' pages and network feed; the
-- dashboard's pages, the order and the stabilizer of its opportunities under frontend, and the Go
-- service under backend.
pub mod Base
pub mod JsMap
pub mod Number
pub mod Clock
pub mod Contracts
pub mod Deltas
pub mod Sink
pub mod LiveBets
pub mod SimulatedBets
pub mod Dashboard
pub mod Unicode
pub mod Doubles
