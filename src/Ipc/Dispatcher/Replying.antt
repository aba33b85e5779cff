-- ===== src/Ipc/Dispatcher/Replying.antt =====
-- When a command of command_dispatcher.cpp is left without a reply.
use yoru_speech.Common.{
  Bool, true, false, ◌≡◌, refl, List, [], ◌∷◌, Option, none, some, Text, lit, if◌then◌else◌,
}
use yoru_speech.Core.Event.{SessionId, Event}
use yoru_speech.Config.Toml.{TomlLibrary, ValidationError}
use yoru_speech.Config.Store.{FileSystem, update, current}
use yoru_speech.Config.Store
use yoru_speech.Session.Manager.{
  Manager, StopSessionResult, queued, session_error, start_session, stop_session, cancel_session,
  cancel_job,
}
use yoru_speech.Ipc.Codec.{
  JsonLibrary, ParsedMessage, typed, malformed, DecodedSetConfig, decoded, decode_error,
  parse_message, decode_cancel_job, decode_set_config, encode_ack, encode_error, encode_queued,
  encode_state, encode_config, encode_models,
}
use yoru_speech.Ipc.Codec.Throwing.{CanThrow}
use yoru_speech.Ipc.Dispatcher.{
  Daemon, Surroundings, Result, Command, start_recording, stop_recording, cancel_job_command,
  cancel_session_command, get_state, get_config, set_config, list_models, unknown, command_of,
  answered, stop_reply, cancel_reply, updated, set_reply, handle, handle_line,
}

found-CanThrow :
    (json : JsonLibrary) (type : Text) (found : Bool)
    → (if found
        then encode_ack json type
        else encode_error json type (lit "no queued job with that session_id"))
      ≡ none
    → CanThrow json
unfolding encode_ack encode_error
found-CanThrow json type true h = (_, h)
found-CanThrow json type false h = (_, h)

module _ (json : JsonLibrary) (toml : TomlLibrary) {Sample : Type 0} where
  -- Without a reply, dump has thrown.
  abbrev pub HasReply : Result Sample → Type 0
  HasReply none = Unit
  HasReply (some (d, events, reply)) = reply ≡ none → CanThrow json

  answered-HasReply :
      (type : Text) (d : Daemon Sample) (r : Manager Sample × List (Event Sample) × Option Text)
      → HasReply (answered json toml type d r)
  unfolding answered encode_ack encode_error
  answered-HasReply type d (m, events, none) = λ h. (_, h)
  answered-HasReply type d (m, events, some message) = λ h. (_, h)

  stopped-HasReply :
      (type : Text) (d : Daemon Sample)
      (o : Option (Manager Sample × List (Event Sample) × StopSessionResult))
      → HasReply (stop_reply json toml type d o)
  unfolding stop_reply encode_error encode_queued
  stopped-HasReply type d none = tt
  stopped-HasReply type d (some (m, events, session_error message)) = λ h. (_, h)
  stopped-HasReply type d (some (m, events, queued job)) = λ h. (_, h)

  cancel-HasReply :
      (type : Text) (d : Daemon Sample) (o : Option SessionId)
      → HasReply (cancel_reply json toml type d o)
  unfolding cancel_reply encode_error
  cancel-HasReply type d none = λ h. (_, h)
  cancel-HasReply type d (some id) = λ h. found-CanThrow json type (cancel_job id d.sessions).2 h

  updated-HasReply :
      (type : Text) (d : Daemon Sample) (r : List ValidationError × Store.Manager)
      → HasReply (updated json toml type d r)
  unfolding updated encode_error encode_config
  updated-HasReply type d ([], c) = λ h. (_, h)
  updated-HasReply type d (e ∷ es, c) = λ h. (_, h)

  set-HasReply :
      (type : Text) (fs : FileSystem) (d : Daemon Sample) (o : DecodedSetConfig)
      → HasReply (set_reply json toml type fs d o)
  unfolding set_reply encode_error
  set-HasReply type fs d (decode_error message) = λ h. (_, h)
  set-HasReply type fs d (decoded next) =
      updated-HasReply type d (update toml fs next d.configurations)

  handle-HasReply :
      (c : Command) (type line : Text) (s : Surroundings) (d : Daemon Sample)
      → HasReply (handle json toml c type line s d)
  unfolding handle encode_error encode_state encode_config encode_models
  handle-HasReply start_recording type line s d =
      answered-HasReply type d (start_session s.hardware s.now d.sessions)
  handle-HasReply stop_recording type line s d =
      stopped-HasReply type d (stop_session s.now d.sessions)
  handle-HasReply cancel_job_command type line s d =
      cancel-HasReply type d (decode_cancel_job json line)
  handle-HasReply cancel_session_command type line s d =
      answered-HasReply type d (cancel_session s.now d.sessions)
  handle-HasReply get_state type line s d = λ h. (_, h)
  handle-HasReply get_config type line s d = λ h. (_, h)
  handle-HasReply set_config type line s d =
      set-HasReply type s.file_system d (decode_set_config json line (current d.configurations))
  handle-HasReply list_models type line s d = λ h. (_, h)
  handle-HasReply unknown type line s d = λ h. (_, h)

  line-HasReply :
      (m : ParsedMessage) (line : Text) (s : Surroundings) (d : Daemon Sample)
      → parse_message json line ≡ m
      → HasReply (handle_line json toml line s d)
  unfolding handle_line encode_error
  line-HasReply (malformed message) line s d e = rw (handle_line, e) (λ h. (_, h))
  line-HasReply (typed type) line s d e =
      rw (handle_line, e) (handle-HasReply (command_of type) type line s d)

  pub handle_line-HasReply :
      (line : Text) (s : Surroundings) (d : Daemon Sample)
      → HasReply (handle_line json toml line s d)
  handle_line-HasReply line s d = line-HasReply (parse_message json line) line s d refl
