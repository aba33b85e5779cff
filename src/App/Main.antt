-- ===== src/App/Main.antt =====
-- main of app/main.cpp from its first line to its end: the journal, the configuration, the model,
-- the socket, the run loop and the shutdown. What the machine answers is an argument, and the turns
-- of the run loop until a signal sets g_should_stop are a list.
pub mod Ending
mod Examples
use yoru_speech.Common.{if◌then◌else◌, ℕ, true, List, [], ◌∷◌, ◌++◌, Option, none, some, Text, lit}
use yoru_speech.Core.Event.{Event}
use yoru_speech.Core.Logger.{Journal, LogLevel, info, warn, error, new_journal, log}
use yoru_speech.Config.Toml.{TomlLibrary, ValidationError}
use yoru_speech.Config.Store.{FileSystem, Disk, load, current}
use yoru_speech.Config.Store
use yoru_speech.Speech.Model.{Model}
use yoru_speech.Speech.Repository.{Opened, default_models_path}
use yoru_speech.Speech.Whisper.{Context, Exists}
use yoru_speech.Speech.Whisper
use yoru_speech.Speech.Transcript.{TranscriptionRequest, TranscriptionResult}
use yoru_speech.Session.Queue.{Queue, default_capacity}
use yoru_speech.Session.Silence.{Floats}
use yoru_speech.Session.Manager.{set_activity_callback}
use yoru_speech.Session.Live.{LiveConfig}
use yoru_speech.Ipc.Codec.{JsonLibrary}
use yoru_speech.Ipc.Server.{ClientId, Server, new_server, client_ids}
use yoru_speech.Ipc.Server.Sockets.{Call, Answers, Sockets, default_socket_path, start, stop}
use yoru_speech.App.Journal.{Startup, log_event, load_configured_model}
use yoru_speech.App.Program.{Program, create}
use yoru_speech.App.Program.Steps.{with_sessions}
use yoru_speech.App.Loop.{Move, loop}
use yoru_speech.App.Program.Closing.{shut_down}

-- The environment variables, what the file system, whisper.cpp and the socket calls answer, and what
-- happens until the end: in the run loop, and in the worker until it is joined.
pub record Machine (Sample : Type 0) : Type 0 where
  pub xdg_runtime_dir : Option Text
  pub xdg_data_home : Option Text
  pub home : Option Text
  pub disk : Disk
  pub file_system : FileSystem
  pub listing : Opened
  pub answers : Model → Exists × Option Context
  pub sockets : Answers
  pub moves : List (Move Sample)
  pub stopped_at : ℕ
  pub rest : Queue Sample → Queue Sample

-- The exit code, or `none` after std::terminate, the system calls of the server's start, the clients at its stop, the calls of that,
-- and the components at the end.
pub record Ended (Sample : Type 0) : Type 0 where
  pub exit_code : Option ℕ
  pub starting : List Call
  pub clients : List ClientId
  pub stopping : List Call
  pub program : Program Sample

main_logs : Text → LogLevel → Text → Journal → Journal
main_logs local_time level message j = log (lit "main") level local_time message j

warn_errors : Text → List ValidationError → Journal → Journal
unfolding main_logs
warn_errors local_time [] j = j
warn_errors local_time (e ∷ es) j =
    warn_errors local_time es
      (main_logs local_time warn (lit "config: " ++ (e.field ++ (lit ": " ++ e.message))) j)

warn_model : Text → Option Text → Journal → Journal
unfolding main_logs
warn_model local_time none j = j
warn_model local_time (some message) j = main_logs local_time warn message j

module _ (json : JsonLibrary) (toml : TomlLibrary) (local_time : Text) (copy : Text → Option Text)
    {Sample : Type 0} where
  log_events : List (Event Sample) → Journal → Journal
  log_events [] j = j
  log_events (event ∷ events) j = log_events events (log_event local_time event j)

  -- What is logged until the components are there.
  startup_journal : List ValidationError → Startup Sample → Journal
  unfolding main_logs warn_errors log_events warn_model
  startup_journal errors s = warn_model local_time s.warning (
      log_events s.events (
        warn_errors local_time errors
          (main_logs local_time info (lit "Yoru Speech started") new_journal)))

  unfoldable pub start_program : Machine Sample → Program Sample
  unfolding startup_journal
  start_program m =
      let (errors, configurations) = load toml m.file_system (Store.create m.disk) in
      let s =
        load_configured_model m.answers m.listing (current configurations)
          (default_models_path m.xdg_data_home m.home) Whisper.create in
      record (create configurations default_capacity) { journal = startup_journal errors s }

  -- Once the server listens: the worker may wake it.
  unfoldable pub listening : Machine Sample → Program Sample → Program Sample
  unfolding main_logs with_sessions
  listening m p = with_sessions (set_activity_callback true) (record p {
    journal =
        main_logs local_time info (lit "listening on " ++ default_socket_path m.xdg_runtime_dir)
          p.journal;
  })

  module _ (floats : Floats Sample) (config : LiveConfig Sample)
      (backend : List Sample → TranscriptionRequest → TranscriptionResult) where
    -- After the shutdown: an exception has ended the process, or the server is stopped and main returns.
    unfoldable pub finished : List Call → Sockets → Server → Program Sample → Ended Sample
    finished calls s server p = record {
      exit_code = if p.terminated then none else some 0;
      starting = calls;
      clients = client_ids server.read_buffers;
      stopping = if p.terminated then [] else (stop (client_ids server.read_buffers) s).0;
      program = p;
    }

    -- After the run loop.
    unfoldable pub ended :
        List Call
        → Sockets
        → Machine Sample
        → Server
        → Option (Program Sample)
        → Option (Ended Sample)
    unfolding finished
    ended calls s m server none = none
    ended calls s m server (some p) = some (
        finished calls s server
          (if p.terminated then p else shut_down json toml local_time copy m.stopped_at m.rest p))

    -- From the answer of ipc_service.start() on.
    unfoldable pub serve_until_stopped :
        List Call × Sockets × Option Text → Machine Sample → Program Sample → Option (Ended Sample)
    unfolding main_logs listening ended
    serve_until_stopped (calls, s, some message) m p = some (record {
      exit_code = some 1;
      starting = calls;
      clients = [];
      stopping = [];
      program = record p {
        journal =
            main_logs local_time error (lit "failed to start IPC server: " ++ message) p.journal;
      };
    })
    serve_until_stopped (calls, s, none) m p =
        let h = loop json toml local_time copy floats config backend m.moves (record {
          server = record new_server { listening = true };
          program = some (listening m p);
        }) in
        ended calls s m h.server h.program

    -- `none` is undefined behaviour.
    unfoldable pub main : Machine Sample → Option (Ended Sample)
    unfolding start_program serve_until_stopped
    main m =
        serve_until_stopped
          (start (default_socket_path m.xdg_runtime_dir) m.sockets
            (record { listen_fd = none; wake_fd = none }))
          m (start_program m)
