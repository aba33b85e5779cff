-- ===== src/Ipc/Dispatcher.antt =====
-- domains/ipc/command_dispatcher.cpp over the session manager and the configuration manager, which the
-- event bus connects: a ConfigurationChanged that update publishes reaches the session manager's
-- handler before update returns. What the hardware, the clock, the file system and the model
-- directory answer is an argument. `none` is undefined behaviour of stop_session.
pub mod Settings
pub mod News
pub mod Replying
pub mod Recording
mod Examples
use yoru_speech.Common.{
  ℕ, Bool, true, false, List, [], ◌∷◌, ◌++◌, Option, none, some, Text, lit, text_eq, if◌then◌else◌,
}
use yoru_speech.Core.Event.{SessionId, Event}
use yoru_speech.Core.Event
use yoru_speech.Config.Configuration.{Configuration}
use yoru_speech.Config.Toml.{TomlLibrary, ValidationError}
use yoru_speech.Config.Store.{FileSystem, update, current}
use yoru_speech.Config.Store
use yoru_speech.Audio.Device.{Hardware}
use yoru_speech.Speech.Model.{Model}
use yoru_speech.Session.Manager.{
  Manager, QueuedJob, StopSessionResult, queued, session_error, start_session, stop_session,
  cancel_session, cancel_job, status, configuration_changed,
}
use yoru_speech.Ipc.Codec.{
  JsonLibrary, ParsedMessage, typed, malformed, DecodedSetConfig, decoded, decode_error,
  parse_message, decode_cancel_job, decode_set_config, encode_ack, encode_error, encode_queued,
  encode_state, encode_config, encode_models,
}

pub record Daemon (Sample : Type 0) : Type 0 where
  pub sessions : Manager Sample
  pub configurations : Store.Manager

-- What one command meets outside the two managers.
pub record Surroundings : Type 0 where
  pub hardware : Hardware
  pub now : ℕ
  pub file_system : FileSystem
  pub models : List Model

-- The field errors of a refused update, joined: " a: x, b: y".
more_errors : List ValidationError → Text
more_errors [] = []
more_errors (e ∷ es) = lit ", " ++ e.field ++ lit ": " ++ e.message ++ more_errors es

unfoldable pub errors_text : List ValidationError → Text
unfolding more_errors
errors_text [] = lit "invalid configuration:"
errors_text (e ∷ es) =
    lit "invalid configuration:" ++ lit " " ++ e.field ++ lit ": " ++ e.message ++ more_errors es

pub data Command : Type 0 where
  start_recording stop_recording cancel_job_command cancel_session_command : Command
  get_state get_config set_config list_models : Command
  unknown : Command

command_of : Text → Command
command_of type =
    if text_eq type (lit "start_recording")
    then start_recording
    else if text_eq type (lit "stop_recording")
    then stop_recording
    else if text_eq type (lit "cancel_job")
    then cancel_job_command
    else if text_eq type (lit "cancel_session")
    then cancel_session_command
    else if text_eq type (lit "get_state")
    then get_state
    else if text_eq type (lit "get_config")
    then get_config
    else if text_eq type (lit "set_config")
    then set_config
    else if text_eq type (lit "list_models")
    then list_models
    else unknown

-- The reply, or `none` where its encoder throws: no handler catches that.
abbrev pub Result : Type 0 → Type 0
Result Sample = Option (Daemon Sample × List (Event Sample) × Option Text)

abbrev reply : {Sample : Type 0} → Daemon Sample → Option Text → Result Sample
reply d text = some (d, [], text)

module _ (json : JsonLibrary) (toml : TomlLibrary) {Sample : Type 0} where
  -- The reply to a command whose method returns an optional error.
  answered :
      Text → Daemon Sample → Manager Sample × List (Event Sample) × Option Text → Result Sample
  answered type d (m, events, none) = some (record d { sessions = m }, events, encode_ack json type)
  answered type d (m, events, some message) =
      some (record d { sessions = m }, events, encode_error json type message)

  stop_reply :
      Text
      → Daemon Sample
      → Option (Manager Sample × List (Event Sample) × StopSessionResult)
      → Result Sample
  stop_reply type d none = none
  stop_reply type d (some (m, events, session_error message)) =
      some (record d { sessions = m }, events, encode_error json type message)
  stop_reply type d (some (m, events, queued job)) =
      some (record d { sessions = m }, events, encode_queued json type job)

  cancel_reply : Text → Daemon Sample → Option SessionId → Result Sample
  cancel_reply type d none =
      reply d (encode_error json type (lit "session_id must be a non-negative integer"))
  cancel_reply type d (some id) =
      let (m, events, found) = cancel_job id d.sessions in
      some (
        record d { sessions = m },
        events,
        if found
            then encode_ack json type
            else encode_error json type (lit "no queued job with that session_id"),
      )

  -- After update: with an error nothing was published; without, the handlers have run.
  updated : Text → Daemon Sample → List ValidationError × Store.Manager → Result Sample
  updated type d (e ∷ es, c) =
      some (record d { configurations = c }, [], encode_error json type (errors_text (e ∷ es)))
  updated type d ([], c) = some (
    record { sessions = configuration_changed c.configuration d.sessions; configurations = c },
    Event.configuration_changed c.configuration ∷ [],
    encode_config json type (current c),
  )

  set_reply : Text → FileSystem → Daemon Sample → DecodedSetConfig → Result Sample
  unfolding updated
  set_reply type fs d (decode_error message) = reply d (encode_error json type message)
  set_reply type fs d (decoded next) = updated type d (update toml fs next d.configurations)

  handle : Command → Text → Text → Surroundings → Daemon Sample → Result Sample
  unfolding answered stop_reply cancel_reply set_reply
  handle start_recording type line s d = answered type d (start_session s.hardware s.now d.sessions)
  handle stop_recording type line s d = stop_reply type d (stop_session s.now d.sessions)
  handle cancel_job_command type line s d = cancel_reply type d (decode_cancel_job json line)
  handle cancel_session_command type line s d = answered type d (cancel_session s.now d.sessions)
  handle get_state type line s d = reply d (encode_state json type (status d.sessions))
  handle get_config type line s d = reply d (encode_config json type (current d.configurations))
  handle set_config type line s d =
      set_reply type s.file_system d (decode_set_config json line (current d.configurations))
  handle list_models type line s d = reply d (encode_models json type s.models)
  handle unknown type line s d = reply d (encode_error json type (lit "unknown command: " ++ type))

  unfoldable pub handle_line : Text → Surroundings → Daemon Sample → Result Sample
  unfolding command_of handle
  handle_line line s d = elim (parse_message json line) [
    | malformed message ↦ reply d (encode_error json (lit "error") message)
    | typed type ↦ handle (command_of type) type line s d
  ]
