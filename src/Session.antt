-- ===== src/Session.antt =====
-- domains/session: the state machines, the transcription queue, the session manager and the live
-- preview.
pub mod Lifecycle
pub mod Queue
pub mod Manager
pub mod Words
pub mod Silence
pub mod Live
mod Examples
