-- ===== src/App/Journal.antt =====
-- app/main.cpp: what the subscribers of log_domain_events and of ErrorOccurred log, and
-- load_configured_model.
use yoru_speech.Common.{
  List, [], ◌∷◌, ◌++◌, Option, none, some, Text, lit, to_string, if◌then◌else◌,
}
use yoru_speech.Core.Event.{
  SessionId, Event, recording_started, recording_finished, transcription_queued,
  transcription_started, transcription_completed, transcription_partial, model_loaded,
  configuration_changed, error_occurred, session_cancelled,
}
use yoru_speech.Core.Logger.{Journal, LogLevel, debug, info, warn, log}
use yoru_speech.Audio.Recording.{duration}
use yoru_speech.Config.Configuration.{Configuration}
use yoru_speech.Speech.Model.{Model}
use yoru_speech.Speech.Repository.{Opened, list_available_models, find_model}
use yoru_speech.Speech.Whisper.{Context, Backend, Exists, Loaded, WhisperCall, load_model}

-- Texts one after the other.
abbrev concat : List Text → Text
concat [] = []
concat (text ∷ texts) = text ++ concat texts

unfoldable pub session_id_str : SessionId → Text
session_id_str id = to_string id

session_suffix : Option SessionId → Text
unfolding session_id_str
session_suffix none = []
session_suffix (some id) = concat (lit " (session " ∷ session_id_str id ∷ lit ")" ∷ [])

-- The level and the message that an event is logged with; the logger's component is "main".
unfoldable pub log_entry : {Sample : Type 0} → Event Sample → LogLevel × Text
unfolding session_id_str session_suffix
log_entry (recording_started id) =
    (info, concat (lit "recording started (session " ∷ session_id_str id ∷ lit ")" ∷ []))
log_entry (recording_finished id recording) = (
  info,
  concat (
      lit "recording finished (session "
      ∷ session_id_str id
      ∷ lit ", "
      ∷ to_string (duration recording)
      ∷ lit "ms)"
      ∷ []),
)
log_entry (transcription_queued id position) = (
  info,
  concat (
      lit "transcription queued (session "
      ∷ session_id_str id
      ∷ lit ", position "
      ∷ to_string position
      ∷ lit ")"
      ∷ []),
)
log_entry (transcription_started id) =
    (info, concat (lit "transcription started (session " ∷ session_id_str id ∷ lit ")" ∷ []))
log_entry (transcription_completed id transcript) = (
  info,
  concat (
      lit "transcription completed (session "
      ∷ session_id_str id
      ∷ lit ", language "
      ∷ transcript.detected_language
      ∷ lit ", "
      ∷ to_string transcript.processing_time
      ∷ lit "ms)"
      ∷ []),
)
log_entry (transcription_partial id committed_text tail_text) = (
  debug,
  concat (
      lit "transcription partial (session "
      ∷ session_id_str id
      ∷ lit "): committed=\""
      ∷ committed_text
      ∷ lit "\" tail=\""
      ∷ tail_text
      ∷ lit "\""
      ∷ []),
)
log_entry (model_loaded model) = (info, lit "model loaded: " ++ model.name)
log_entry (session_cancelled id) =
    (info, concat (lit "session cancelled (session " ∷ session_id_str id ∷ lit ")" ∷ []))
log_entry (configuration_changed configuration) = (
  info,
  concat (
      lit "configuration updated (language "
      ∷ configuration.default_language
      ∷ lit ", model "
      ∷ configuration.selected_model
      ∷ lit ", auto_clipboard "
      ∷ (if configuration.auto_clipboard then lit "on" else lit "off")
      ∷ lit ")"
      ∷ []),
)
log_entry (error_occurred id component message) =
    (warn, concat (component ∷ lit ": " ∷ message ∷ session_suffix id ∷ []))

-- The handler that is called for an event, at a local time.
unfoldable pub log_event : {Sample : Type 0} → Text → Event Sample → Journal → Journal
log_event timestamp event j = log (lit "main") (log_entry event).0 timestamp (log_entry event).1 j

-- What load_configured_model leaves: the backend, its whisper.cpp calls, the events it publishes, and
-- the warning that it logs, if any.
pub record Startup (Sample : Type 0) : Type 0 where
  pub backend : Backend
  pub calls : List WhisperCall
  pub events : List (Event Sample)
  pub warning : Option Text

unfoldable pub load_failed : {Sample : Type 0} → Configuration → Loaded Sample → Startup Sample
load_failed configuration loaded = record {
  backend = loaded.backend;
  calls = loaded.calls;
  events = loaded.events;
  warning = elim (loaded.error) [
    | none ↦ none
    | some message ↦ some (
        concat (
          lit "failed to load model \"" ∷ configuration.selected_model ∷ lit "\": " ∷ message ∷ []))
  ];
}

unfoldable pub load_found :
    {Sample : Type 0}
    → (Model → Exists × Option Context)
    → Configuration
    → Text
    → Backend
    → Option Model
    → Startup Sample
unfolding load_failed
load_found answers configuration models_directory b none = record {
  backend = b;
  calls = [];
  events = [];
  warning = some (
      concat (
        lit "configured model \""
        ∷ configuration.selected_model
        ∷ lit "\" not found in "
        ∷ models_directory
        ∷ lit "; transcription will fail until one is available"
        ∷ []));
}
load_found answers configuration models_directory b (some model) =
    load_failed configuration (load_model (answers model).0 (answers model).1 model b)

-- `answers` is what the file system and whisper.cpp answer for a model's file.
unfoldable pub load_configured_model :
    {Sample : Type 0}
    → (Model → Exists × Option Context)
    → Opened
    → Configuration
    → Text
    → Backend
    → Startup Sample
unfolding load_found
load_configured_model answers listing configuration models_directory b =
    load_found answers configuration models_directory b
      (find_model (list_available_models models_directory listing) configuration.selected_model)
