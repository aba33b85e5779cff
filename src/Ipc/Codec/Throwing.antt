-- ===== src/Ipc/Codec/Throwing.antt =====
-- When the encoders of domains/ipc/message_codec.cpp throw.
use yoru_speech.Common.{◌≡◌, none}
use yoru_speech.Core.Event.{
  Event, recording_started, recording_finished, transcription_queued, transcription_started,
  transcription_completed, transcription_partial, model_loaded, configuration_changed,
  error_occurred, session_cancelled,
}
use yoru_speech.Ipc.Codec.{JsonLibrary}
use yoru_speech.Ipc.Codec.Events.{encode_event, event_envelope}

module _ (json : JsonLibrary) where
  -- dump throws for some value.
  abbrev pub CanThrow : Type 0
  CanThrow = (value : json.Json) × (json.dump value ≡ none)

  pub encode_event-CanThrow :
      {Sample : Type 0} (event : Event Sample) → encode_event json event ≡ none → CanThrow
  unfolding encode_event event_envelope
  encode_event-CanThrow (recording_started id) h = (_, h)
  encode_event-CanThrow (recording_finished id recording) h = (_, h)
  encode_event-CanThrow (transcription_queued id position) h = (_, h)
  encode_event-CanThrow (transcription_started id) h = (_, h)
  encode_event-CanThrow (transcription_completed id t) h = (_, h)
  encode_event-CanThrow (transcription_partial id committed tail) h = (_, h)
  encode_event-CanThrow (model_loaded m) h = (_, h)
  encode_event-CanThrow (configuration_changed c) h = (_, h)
  encode_event-CanThrow (error_occurred id component message) h = (_, h)
  encode_event-CanThrow (session_cancelled id) h = (_, h)
