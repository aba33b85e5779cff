-- ===== src/Ipc/Dispatcher/News.antt =====
-- Which configuration a command of command_dispatcher.cpp publishes.
use yoru_speech.Common.{◌≡◌, refl, inl, inr, ◌⊎◌, List, [], ◌∷◌, Option, none, some, Text, arith}
use yoru_speech.Core.Event.{SessionId, Event}
use yoru_speech.Config.Configuration.{Configuration}
use yoru_speech.Config.Toml.{TomlLibrary, ValidationError}
use yoru_speech.Config.Store.{FileSystem, update, current}
use yoru_speech.Config.Store
use yoru_speech.Config.Store.Updates.{Outcome, update_lem}
use yoru_speech.Session.Manager.{
  Manager, StopSessionResult, queued, session_error, start_session, stop_session, cancel_session,
}
use yoru_speech.Session.Manager.Quiet.{
  AllQuiet, start-AllQuiet, stop-AllQuiet, cancel-AllQuiet, cancel_job-AllQuiet,
}
use yoru_speech.Ipc.Codec.{
  JsonLibrary, ParsedMessage, typed, malformed, DecodedSetConfig, decoded, decode_error,
  parse_message, decode_cancel_job, decode_set_config,
}
use yoru_speech.Ipc.Dispatcher.{
  Daemon, Surroundings, Result, Command, start_recording, stop_recording, cancel_job_command,
  cancel_session_command, get_state, get_config, set_config, list_models, unknown, command_of,
  answered, stop_reply, cancel_reply, updated, set_reply, handle, handle_line,
}

module _ {Sample : Type 0} where
  -- The configuration stays and none is published; or the new one is published, and nothing else.
  abbrev pub Publishes : Daemon Sample → Result Sample → Type 0
  Publishes d none = Unit
  Publishes d (some (d', events, reply)) =
      ((current d'.configurations ≡ current d.configurations) × AllQuiet events)
      ⊎ (events ≡ Event.configuration_changed (current d'.configurations) ∷ [])

  module _ (json : JsonLibrary) (toml : TomlLibrary) where
    answered-Publishes :
        (type : Text) (d : Daemon Sample) (r : Manager Sample × List (Event Sample) × Option Text)
        → AllQuiet r.1
        → Publishes d (answered json toml type d r)
    unfolding answered
    answered-Publishes type d (m, events, none) q = inl (refl, q)
    answered-Publishes type d (m, events, some message) q = inl (refl, q)

    stopped-Publishes :
        (type : Text) (d : Daemon Sample)
        (o : Option (Manager Sample × List (Event Sample) × StopSessionResult))
        → ((r : Manager Sample × List (Event Sample) × StopSessionResult)
            → o ≡ some r
            → AllQuiet r.1)
        → Publishes d (stop_reply json toml type d o)
    unfolding stop_reply
    stopped-Publishes type d none q = tt
    stopped-Publishes type d (some (m, events, session_error message)) q = inl (refl, q _ refl)
    stopped-Publishes type d (some (m, events, queued job)) q = inl (refl, q _ refl)

    cancel-Publishes :
        (type : Text) (d : Daemon Sample) (o : Option SessionId)
        → Publishes d (cancel_reply json toml type d o)
    unfolding cancel_reply
    cancel-Publishes type d none = inl (refl, tt)
    cancel-Publishes type d (some id) = inl (refl, cancel_job-AllQuiet id d.sessions)

    updated-Publishes :
        (type : Text) (d : Daemon Sample) (next : Configuration)
        (r : List ValidationError × Store.Manager)
        → Outcome toml next d.configurations r
        → Publishes d (updated json toml type d r)
    unfolding updated Outcome current
    updated-Publishes type d next ([], c) o = inr refl
    updated-Publishes type d next (e ∷ es, c) (inl (no_error, valid, same, target, published)) =
        absurd (ground arith)
    updated-Publishes type d next (e ∷ es, c) (inr (some_error, same, target, published)) =
        inl (same, tt)

    set-Publishes :
        (type : Text) (fs : FileSystem) (d : Daemon Sample) (o : DecodedSetConfig)
        → Publishes d (set_reply json toml type fs d o)
    unfolding set_reply
    set-Publishes type fs d (decode_error message) = inl (refl, tt)
    set-Publishes type fs d (decoded next) =
        updated-Publishes type d next (update toml fs next d.configurations)
          (update_lem toml fs next d.configurations)

    handle-Publishes :
        (c : Command) (type line : Text) (s : Surroundings) (d : Daemon Sample)
        → Publishes d (handle json toml c type line s d)
    unfolding handle
    handle-Publishes start_recording type line s d =
        answered-Publishes type d (start_session s.hardware s.now d.sessions)
          (start-AllQuiet s.hardware s.now d.sessions)
    handle-Publishes stop_recording type line s d =
        stopped-Publishes type d (stop_session s.now d.sessions) (stop-AllQuiet s.now d.sessions)
    handle-Publishes cancel_job_command type line s d =
        cancel-Publishes type d (decode_cancel_job json line)
    handle-Publishes cancel_session_command type line s d =
        answered-Publishes type d (cancel_session s.now d.sessions)
          (cancel-AllQuiet s.now d.sessions)
    handle-Publishes get_state type line s d = inl (refl, tt)
    handle-Publishes get_config type line s d = inl (refl, tt)
    handle-Publishes set_config type line s d =
        set-Publishes type s.file_system d (decode_set_config json line (current d.configurations))
    handle-Publishes list_models type line s d = inl (refl, tt)
    handle-Publishes unknown type line s d = inl (refl, tt)

    line-Publishes :
        (m : ParsedMessage) (line : Text) (s : Surroundings) (d : Daemon Sample)
        → parse_message json line ≡ m
        → Publishes d (handle_line json toml line s d)
    unfolding handle_line
    line-Publishes (malformed message) line s d e = rw (handle_line, e) (inl (refl, tt))
    line-Publishes (typed type) line s d e =
        rw (handle_line, e) (handle-Publishes (command_of type) type line s d)

    -- A command that leaves the configuration as it is publishes none, and one that changes it
    -- publishes the new one and nothing else.
    pub handle_line-Publishes :
        (line : Text) (s : Surroundings) (d : Daemon Sample)
        → Publishes d (handle_line json toml line s d)
    handle_line-Publishes line s d = line-Publishes (parse_message json line) line s d refl
