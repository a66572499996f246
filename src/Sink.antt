-- ===== src/Sink.antt =====
-- The stream to the backend (collector/shared/src/backend/backend-collector-stream-sink.ts).
pub mod Cache
pub mod Requests
pub mod Commands
pub mod Replies
pub mod Simulated
pub mod Live
pub mod Markets
pub mod Payloads
pub mod Stream
pub mod Connection
pub mod FixtureFrames
pub mod Push
mod Tests
