-- ===== src/Ipc/Dispatcher/Settings.antt =====
-- What the commands of command_dispatcher.cpp keep true of the two managers together.
use yoru_speech.Common.{ℕ, ◌≡◌, refl, ◌∙◌, inl, inr, List, [], ◌∷◌, Option, none, some, Text, arith}
use yoru_speech.Core.Event.{SessionId, Event}
use yoru_speech.Config.Configuration.{Configuration}
use yoru_speech.Config.Toml.{TomlLibrary, ValidationError}
use yoru_speech.Config.Store.{FileSystem, update, current}
use yoru_speech.Config.Store
use yoru_speech.Config.Store.Updates.{Outcome, update_lem}
use yoru_speech.Audio.Device.{Hardware}
use yoru_speech.Audio.Recorder
use yoru_speech.Session.Manager.{
  Manager, StopSessionResult, queued, session_error, start_session, stop_session, cancel_session,
  cancel_job, configuration_changed,
}
use yoru_speech.Session.Manager.Invariant.{
  IsCoherent, start-IsCoherent, stop-IsCoherent, cancel-IsCoherent, cancel_job-IsCoherent,
}
use yoru_speech.Ipc.Codec.{
  JsonLibrary, ParsedMessage, typed, malformed, DecodedSetConfig, decoded, decode_error,
  parse_message, decode_cancel_job, decode_set_config,
}
use yoru_speech.Ipc.Dispatcher.{
  Daemon, Surroundings, Result, Command, start_recording, stop_recording, cancel_job_command,
  cancel_session_command, get_state, get_config, set_config, list_models, unknown, command_of,
  answered, stop_reply, cancel_reply, updated, set_reply, handle, handle_line,
}

module _ {Sample : Type 0} where
  abbrev Keeps : Manager Sample → Manager Sample → Type 0
  Keeps m m' =
      (m'.default_language ≡ m.default_language)
      × (m'.transcription_prompt ≡ m.transcription_prompt)

  start-Keeps : (hw : Hardware) (now : ℕ) (m : Manager Sample) → Keeps m (start_session hw now m).0
  unfolding start_session Recorder.start
  start-Keeps hw now m = ground arith

  stop-Keeps :
      (now : ℕ) (m : Manager Sample) (r : Manager Sample × List (Event Sample) × StopSessionResult)
      → stop_session now m ≡ some r
      → Keeps m r.0
  unfolding stop_session Recorder.stop
  stop-Keeps now m r e = ground arith

  cancel-Keeps : (now : ℕ) (m : Manager Sample) → Keeps m (cancel_session now m).0
  unfolding cancel_session Recorder.stop
  cancel-Keeps now m = ground arith

  cancel_job-Keeps : (id : SessionId) (m : Manager Sample) → Keeps m (cancel_job id m).0
  unfolding cancel_job
  cancel_job-Keeps id m = ground arith

  -- The session manager is coherent and works with the current configuration's language and prompt.
  abbrev pub IsSettled : Daemon Sample → Type 0
  IsSettled d =
      IsCoherent d.sessions
      × (d.sessions.default_language ≡ (current d.configurations).default_language)
      × (d.sessions.transcription_prompt ≡ (current d.configurations).transcription_prompt)

  -- A command is answered, and leaves a daemon that is settled.
  abbrev pub IsServed : Result Sample → Type 0
  IsServed o =
      (r : Daemon Sample × List (Event Sample) × Option Text) × (o ≡ some r) × IsSettled r.0

  moved :
      (d : Daemon Sample) (m : Manager Sample)
      → IsSettled d
      → IsCoherent m
      → Keeps d.sessions m
      → IsSettled (record d { sessions = m })
  moved d m (c, l, p) c' (l', p') = (c', l' ∙ l, p' ∙ p)

  module _ (json : JsonLibrary) (toml : TomlLibrary) where
    answered-IsServed :
        (type : Text) (d : Daemon Sample) (r : Manager Sample × List (Event Sample) × Option Text)
        → IsSettled (record d { sessions = r.0 })
        → IsServed (answered json toml type d r)
    unfolding answered
    answered-IsServed type d (m, events, none) s = (_, refl, s)
    answered-IsServed type d (m, events, some message) s = (_, refl, s)

    stopped-IsServed :
        (type : Text) (d : Daemon Sample)
        (r : Manager Sample × List (Event Sample) × StopSessionResult)
        → IsSettled (record d { sessions = r.0 })
        → IsServed (stop_reply json toml type d (some r))
    unfolding stop_reply
    stopped-IsServed type d (m, events, session_error message) t = (_, refl, t)
    stopped-IsServed type d (m, events, queued job) t = (_, refl, t)

    stop-IsServed :
        (type : Text) (now : ℕ) (d : Daemon Sample)
        → IsSettled d
        → IsServed (stop_reply json toml type d (stop_session now d.sessions))
    stop-IsServed type now d s =
        let (r, e, c, moves) =
          stop-IsCoherent now d.sessions d.sessions.state d.sessions.active_session _ refl refl refl
            s.0 in
        rw e (stopped-IsServed type d r (moved d r.0 s c (stop-Keeps now d.sessions r e)))

    cancel-IsServed :
        (type : Text) (d : Daemon Sample) (o : Option SessionId)
        → IsSettled d
        → IsServed (cancel_reply json toml type d o)
    unfolding cancel_reply
    cancel-IsServed type d none s = (_, refl, s)
    cancel-IsServed type d (some id) s = (
      _,
      refl,
      moved d (cancel_job id d.sessions).0 s (cancel_job-IsCoherent id d.sessions s.0).0
          (cancel_job-Keeps id d.sessions),
    )

    updated-IsServed :
        (type : Text) (d : Daemon Sample) (next : Configuration)
        (r : List ValidationError × Store.Manager)
        → IsSettled d
        → Outcome toml next d.configurations r
        → IsServed (updated json toml type d r)
    unfolding updated Outcome current configuration_changed
    updated-IsServed type d next ([], c) s o = (_, refl, (s.0, refl, refl))
    updated-IsServed type d next (e ∷ es, c) s (inl (no_error, valid, same, target, published)) =
        absurd (ground arith)
    updated-IsServed type d next (e ∷ es, c) (k, l, p) (inr (some_error, same, target, published)) =
        (_, refl, (k, rw same l, rw same p))

    set-IsServed :
        (type : Text) (fs : FileSystem) (d : Daemon Sample) (o : DecodedSetConfig)
        → IsSettled d
        → IsServed (set_reply json toml type fs d o)
    unfolding set_reply
    set-IsServed type fs d (decode_error message) s = (_, refl, s)
    set-IsServed type fs d (decoded next) s =
        updated-IsServed type d next (update toml fs next d.configurations) s
          (update_lem toml fs next d.configurations)

    handle-IsServed :
        (c : Command) (type line : Text) (s : Surroundings) (d : Daemon Sample)
        → IsSettled d
        → IsServed (handle json toml c type line s d)
    unfolding handle
    handle-IsServed start_recording type line s d v =
        let p =
          start-IsCoherent s.hardware s.now d.sessions d.sessions.state d.sessions.active_session _
            refl refl refl v.0 in
        answered-IsServed type d (start_session s.hardware s.now d.sessions) (
          moved d (start_session s.hardware s.now d.sessions).0 v p.0
            (start-Keeps s.hardware s.now d.sessions))
    handle-IsServed stop_recording type line s d v = stop-IsServed type s.now d v
    handle-IsServed cancel_job_command type line s d v =
        cancel-IsServed type d (decode_cancel_job json line) v
    handle-IsServed cancel_session_command type line s d v =
        let p =
          cancel-IsCoherent s.now d.sessions d.sessions.state d.sessions.active_session _ refl refl
            refl v.0 in
        answered-IsServed type d (cancel_session s.now d.sessions)
          (moved d (cancel_session s.now d.sessions).0 v p.0 (cancel-Keeps s.now d.sessions))
    handle-IsServed get_state type line s d v = (_, refl, v)
    handle-IsServed get_config type line s d v = (_, refl, v)
    handle-IsServed set_config type line s d v =
        set-IsServed type s.file_system d (decode_set_config json line (current d.configurations)) v
    handle-IsServed list_models type line s d v = (_, refl, v)
    handle-IsServed unknown type line s d v = (_, refl, v)

    line-IsServed :
        (m : ParsedMessage) (line : Text) (s : Surroundings) (d : Daemon Sample)
        → parse_message json line ≡ m
        → IsSettled d
        → IsServed (handle_line json toml line s d)
    unfolding handle_line
    line-IsServed (malformed message) line s d e v = rw (handle_line, e) (_, refl, v)
    line-IsServed (typed type) line s d e v =
        rw (handle_line, e) (handle-IsServed (command_of type) type line s d v)

    -- Whatever line a client sends, and whatever the surroundings answer, handle_line replies and
    -- meets no undefined behaviour, and if the session manager is coherent and works with the current
    -- configuration's language and prompt before, it does so afterwards.
    pub handle_line-IsServed :
        (line : Text) (s : Surroundings) (d : Daemon Sample)
        → IsSettled d
        → IsServed (handle_line json toml line s d)
    handle_line-IsServed line s d v = line-IsServed (parse_message json line) line s d refl v
