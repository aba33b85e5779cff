-- ===== src/Speech.antt =====
-- domains/speech: the values that are exchanged, the model files and the whisper.cpp backend.
pub mod Transcript
pub mod Model
pub mod Paths
pub mod Repository
pub mod Whisper
mod Examples
