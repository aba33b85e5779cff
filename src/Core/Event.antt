-- ===== src/Core/Event.antt =====
-- core/session_id.hpp, core/error_event.hpp and the events.hpp of each domain: one constructor for
-- each event type that is published.
use yoru_speech.Common.{ℕ, Option, Text}
use yoru_speech.Audio.Recording.{Recording}
use yoru_speech.Config.Configuration.{Configuration}
use yoru_speech.Speech.Transcript.{Transcript}
use yoru_speech.Speech.Model.{Model}

abbrev pub SessionId : Type 0
SessionId = ℕ

pub data Event (Sample : Type 0) : Type 0 where
  recording_started : SessionId → Event Sample
  recording_finished : SessionId → Recording Sample → Event Sample
  transcription_queued : SessionId → ℕ → Event Sample
  transcription_started : SessionId → Event Sample
  transcription_completed : SessionId → Transcript → Event Sample
  transcription_partial : SessionId → Text → Text → Event Sample
  model_loaded : Model → Event Sample
  configuration_changed : Configuration → Event Sample
  -- The session if there is one, the component and the message.
  error_occurred : Option SessionId → Text → Text → Event Sample
  session_cancelled : SessionId → Event Sample
