-- ===== src/Speech/Transcript.antt =====
-- domains/speech/transcript.hpp and speech_backend.hpp: what a transcription takes and returns.
-- Durations are whole milliseconds.
use yoru_speech.Common.{ℕ, Text}

pub record Transcript : Type 0 where
  pub text : Text
  pub detected_language : Text
  pub requested_language : Text
  pub audio_duration : ℕ
  pub processing_time : ℕ

pub record TranscriptionRequest : Type 0 where
  pub language : Text
  pub initial_prompt : Text

-- std::variant<Transcript, SpeechError>; a SpeechError is its message.
pub data TranscriptionResult : Type 0 where
  transcript : Transcript → TranscriptionResult
  speech_error : Text → TranscriptionResult
