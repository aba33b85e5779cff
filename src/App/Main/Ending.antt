-- ===== src/App/Main/Ending.antt =====
-- How main of app/main.cpp ends.
use yoru_speech.Common.{
  ◌≡◌, ◌∙◌, refl, ap, true, has_value, ◌⊎◌, inl, inr, false, List, [], ◌++◌, Option, none, some,
  Text,
}
use mathlib.Core.Path.{subst}
use yoru_speech.Config.Toml.{TomlLibrary}
use yoru_speech.Speech.Transcript.{TranscriptionRequest, TranscriptionResult}
use yoru_speech.Audio.Recorder
use yoru_speech.Clipboard.Auto
use yoru_speech.Session.Lifecycle.{ServiceState}
use yoru_speech.Session.Silence.{Floats}
use yoru_speech.Session.Manager.{Manager, set_activity_callback}
use yoru_speech.Session.Manager
use yoru_speech.Session.Live.{LiveConfig}
use yoru_speech.Session.Live
use yoru_speech.Ipc.Codec.{JsonLibrary}
use yoru_speech.Ipc.Server.Sockets.{Call, Sockets, default_socket_path, start}
use yoru_speech.Ipc.Server.Descriptors.{World, after}
use yoru_speech.Ipc.Server.Startup.{start-Leaves, start-stop, Leaves}
use yoru_speech.Ipc.Server.{Server, new_server, client_ids}
use yoru_speech.App.Loop.{loop}
use yoru_speech.App.Loop.Simulation.{loop-IsReached}
use yoru_speech.App.Program.{Program, create}
use yoru_speech.App.Program.Steps.{with_sessions}
use yoru_speech.App.Program.Agreement.{IsAgreed, run-Agrees}
use yoru_speech.Ipc.Codec.Throwing.{CanThrow}
use yoru_speech.Ipc.Service.Replies.{IsExcused}
use yoru_speech.Ipc.Server.Sockets.{stop}
use yoru_speech.Session.Manager.Invariant.{IsCoherent}
use yoru_speech.Common.{sym, if◌then◌else◌, Bool-cases, arith}
use yoru_speech.App.Program.Excuses.{Excused, OptionExcused, run-Excused, shut_down-Excused}
use yoru_speech.App.Program.Closing.{shut_down, shut_down_lem}
use yoru_speech.App.Main.{
  Machine, Ended, start_program, listening, finished, ended, serve_until_stopped, main,
}

-- The call of the server's start.
abbrev pub starting_of : {Sample : Type 0} → Machine Sample → List Call × Sockets × Option Text
starting_of m =
    start (default_socket_path m.xdg_runtime_dir) m.sockets
      (record { listen_fd = none; wake_fd = none })

-- The server could not start, and no descriptor stays open.
abbrev Fails : {Sample : Type 0} → World → Machine Sample → Ended Sample → Type 0
Fails w m e =
    (has_value (starting_of m).2 ≡ true)
    × (e.exit_code ≡ some 1)
    × (e.stopping ≡ [])
    × ((after e.starting w).0 ≡ w.0)

-- Nothing is going on in the service, no descriptor stays open, and the socket file is gone.
abbrev Finishes : {Sample : Type 0} → World → Machine Sample → Ended Sample → Type 0
Finishes w m e =
    ((starting_of m).2 ≡ none)
    × (e.exit_code ≡ some 0)
    × (e.program.daemon.sessions.state ≡ ServiceState.idle)
    × (e.program.daemon.sessions.active_session ≡ none)
    × (e.program.daemon.sessions.recorder.active_session ≡ none)
    × (after e.stopping (e.clients ++ (after e.starting w).0, (after e.starting w).1)
        ≡ (w.0, false))

-- An exception has ended the process, and dump throws for some value.
abbrev Aborts : {Sample : Type 0} → JsonLibrary → Machine Sample → Ended Sample → Type 0
Aborts json m e = ((starting_of m).2 ≡ none) × (e.exit_code ≡ none) × CanThrow json

abbrev pub Ends :
    {Sample : Type 0} → JsonLibrary → World → Machine Sample → Option (Ended Sample) → Type 0
Ends {Sample} json w m o =
    (e : Ended Sample) × (o ≡ some e) × (Fails w m e ⊎ Finishes w m e ⊎ Aborts json m e)

module _ (json : JsonLibrary) (toml : TomlLibrary) (local_time : Text) (copy : Text → Option Text)
    {Sample : Type 0} where
  -- What main has built agrees before the first turn.
  listening-IsAgreed :
      (m : Machine Sample)
      → IsAgreed (listening json toml local_time copy m (start_program json toml local_time copy m))
  unfolding listening start_program create with_sessions set_activity_callback Manager.create
      Live.create Auto.create Recorder.create
  listening-IsAgreed m = ((tt, refl, refl), (refl, refl, refl))

  fresh_lem : (m : Machine Sample) → (start_program json toml local_time copy m).terminated ≡ false
  unfolding start_program create
  fresh_lem m = refl

  module _ (floats : Floats Sample) (config : LiveConfig Sample)
      (backend : List Sample → TranscriptionRequest → TranscriptionResult) where
    -- After the shutdown, if it comes to that.
    abbrev IsOver : Program Sample → Type 0
    IsOver p =
        Excused json toml local_time copy p
        × ((p.daemon.sessions.state ≡ ServiceState.idle)
              × (p.daemon.sessions.active_session ≡ none)
              × (p.daemon.sessions.recorder.active_session ≡ none)
            ⊎ (p.terminated ≡ true))

    shut_down-IsOver :
        (m : Machine Sample) (p : Program Sample)
        → IsCoherent p.daemon.sessions
        → Excused json toml local_time copy p
        → IsOver
            (if p.terminated then p else shut_down json toml local_time copy m.stopped_at m.rest p)
    shut_down-IsOver m p coherent excused =
        let (state, active, recording, sent) =
          shut_down_lem json toml local_time copy m.stopped_at m.rest p coherent in
        elim p.terminated
            as (λ t.
              p.terminated ≡ t
              → IsOver
                  (if t then p else shut_down json toml local_time copy m.stopped_at m.rest p)) [
                    | true ↦ λ e. (excused, inr e)
                    | false ↦ λ e. (
                      shut_down-Excused json toml local_time copy m.stopped_at m.rest p excused,
                      inl (state, active, recording),
                    )
                  ]
          refl

    -- How it ends, as the last program tells.
    finished-Ends :
        (m : Machine Sample) (w : World) (calls : List Call) (s : Sockets) (server : Server)
        (p : Program Sample)
        → (starting_of m).2 ≡ none
        → IsOver p
        → after
            (stop (client_ids server.read_buffers) s).0
            (client_ids server.read_buffers ++ (after calls w).0, (after calls w).1)
          ≡ (w.0, false)
        → let e = finished json toml local_time copy floats config backend calls s server p in
          Finishes w m e ⊎ Aborts json m e
    unfolding finished
    finished-Ends m w calls s server p started (excused, idle) closed =
        elim (Bool-cases p.terminated) [
          | inl ended ↦ inr (started, ground (arith, ended), subst (IsExcused json) ended excused)
          | inr going ↦ elim idle [
            | inl (state, active, recording) ↦
                rw going (inl (started, refl, state, active, recording, closed))
            | inr ended ↦ absurd (ground (arith, ended, going))
          ]
        ]

    served-Ends :
        (m : Machine Sample) (p : Program Sample) (w : World)
        (o : List Call × Sockets × Option Text)
        → starting_of m ≡ o
        → IsAgreed (listening json toml local_time copy m p)
        → p.terminated ≡ false
        → Ends json w m (serve_until_stopped json toml local_time copy floats config backend o m p)
    unfolding serve_until_stopped ended
    served-Ends m p w (calls, s, some error) h v fresh =
        let (kept, descriptors, file) = subst (Leaves _ _ w) h (start-Leaves _ m.sockets _ w) in
        (_, refl, inl (ap (λ x. has_value x.2) h, refl, refl, descriptors))
    served-Ends m p w (calls, s, none) h v fresh =
        let begun = listening json toml local_time copy m p in
        let server : Server = record new_server { listening = true } in
        let (actions, own, reached) =
          loop-IsReached json toml local_time copy floats config backend m.moves server begun in
        let (last, ran, ((coherent, language, prompt), follows)) =
          run-Agrees json toml local_time copy floats config backend begun actions v in
        let server' =
          (loop json toml local_time copy floats config backend m.moves
            (record { server = server; program = some begun })).server in
        let (closed, stopped) =
          start-stop _ m.sockets _ s calls w (client_ids server'.read_buffers) h in
        let excused : Excused json toml local_time copy last =
          subst (OptionExcused json toml local_time copy) ran (
            run-Excused json toml local_time copy floats config backend begun actions
              (subst (IsExcused json) (sym fresh) tt)) in
        rw (reached ∙ ran) (
          _,
          refl,
          inr (
              finished-Ends m w calls s server'
                (if last.terminated
                  then last
                  else shut_down json toml local_time copy m.stopped_at m.rest last)
                (ap (λ x. x.2) h) (shut_down-IsOver m last coherent excused) closed),
        )

    -- However main's surroundings answer, if every call of the clipboard adapter returns, and those of
    -- unlink and close succeed: after any finite run of its loop main meets no undefined behaviour and
    -- ends. When the server's start returns an error, the exit code is 1 and the descriptors are those
    -- that were open before. Otherwise the exit code is 0, and at the end the service is idle, with no
    -- session and no recording, the descriptors of the clients, the socket and the eventfd are closed,
    -- and there is no socket file; or an exception has ended the process, which happens only if the
    -- JSON library's dump throws for some value.
    pub main_lem :
        (m : Machine Sample) (w : World)
        → Ends json w m (main json toml local_time copy floats config backend m)
    unfolding main
    main_lem m w =
        served-Ends m (start_program json toml local_time copy m) w _ refl (listening-IsAgreed m)
          (fresh_lem m)
