-- ===== src/Ipc/Codec/Events.antt =====
-- encode_event of domains/ipc/message_codec.cpp, one clause for each overload.
use yoru_speech.Common.{List, [], ◌∷◌, ◌++◌, Option, Text, lit}
use yoru_speech.Audio.Recording.{duration}
use yoru_speech.Core.Event.{
  Event, recording_started, recording_finished, transcription_queued, transcription_started,
  transcription_completed, transcription_partial, model_loaded, configuration_changed,
  error_occurred, session_cancelled,
}
use yoru_speech.Ipc.Codec.{JsonLibrary, policy_to_string, size_to_string, id_field}

module _ (json : JsonLibrary) where
  open json use {Json, string, boolean, number, object, dump}

  -- An envelope with these fields.
  unfoldable pub event_envelope : Text → List (Text × Json) → Option Text
  event_envelope name fields =
      dump (object ((lit "type", string (lit "event")) ∷ (lit "event", string name) ∷ fields))

  unfoldable pub encode_event : {Sample : Type 0} → Event Sample → Option Text
  unfolding event_envelope
  encode_event (recording_started id) =
      event_envelope (lit "recording_started") ((lit "session_id", number id) ∷ [])
  encode_event (recording_finished id recording) = event_envelope (lit "recording_finished") (
      (lit "session_id", number id)
      ∷ (lit "duration_ms", number (duration recording))
      ∷ (lit "sample_rate", number recording.sample_rate)
      ∷ (lit "channels", number recording.channels)
      ∷ [])
  encode_event (transcription_started id) =
      event_envelope (lit "transcription_started") ((lit "session_id", number id) ∷ [])
  encode_event (transcription_completed id t) = event_envelope (lit "transcription_completed") (
      (lit "session_id", number id)
      ∷ (lit "text", string t.text)
      ∷ (lit "detected_language", string t.detected_language)
      ∷ (lit "requested_language", string t.requested_language)
      ∷ (lit "audio_duration_ms", number t.audio_duration)
      ∷ (lit "processing_time_ms", number t.processing_time)
      ∷ [])
  encode_event (transcription_queued id position) =
      event_envelope (lit "transcription_queued")
        ((lit "session_id", number id) ∷ (lit "position", number position) ∷ [])
  encode_event (transcription_partial id committed_text tail_text) =
      event_envelope (lit "transcription_partial") (
        (lit "session_id", number id)
        ∷ (lit "committed_text", string committed_text)
        ∷ (lit "tail_text", string tail_text)
        ∷ [])
  encode_event (model_loaded m) = event_envelope (lit "model_loaded") (
      (lit "name", string m.name)
      ∷ (lit "size", string (size_to_string m.size))
      ∷ (lit "supported_language", string m.supported_language)
      ∷ (lit "path", string m.path)
      ∷ (lit "backend", string m.backend)
      ∷ [])
  encode_event (configuration_changed c) = event_envelope (lit "configuration_changed") (
      (lit "default_language", string c.default_language)
      ∷ (lit "selected_model", string c.selected_model)
      ∷ (lit "auto_clipboard", boolean c.auto_clipboard)
      ∷ (lit "model_load_policy", string (policy_to_string c.model_load_policy))
      ∷ (lit "transcription_prompt", string c.transcription_prompt)
      ∷ [])
  encode_event (error_occurred id component message) = event_envelope (lit "error_occurred") (
      id_field json (lit "session_id") id
      ++ (lit "component", string component) ∷ (lit "message", string message) ∷ [])
  encode_event (session_cancelled id) =
      event_envelope (lit "session_cancelled") ((lit "session_id", number id) ∷ [])
