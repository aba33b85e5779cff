-- ===== src/App/Main/Examples.antt =====
-- A run of main.
use yoru_speech.Common.{refl, ℕ, true, false, [], ◌∷◌, none, some, lit}
use yoru_speech.Speech.Repository.{opened}
use yoru_speech.Ipc.Server.Sockets.{Opened, refused}
use yoru_speech.Ipc.Samples.{set_language, toml, surroundings}
use yoru_speech.App.Samples.{floats, config, backend, local_time, copy, scan, answers}
use yoru_speech.Ipc.Server.{Poll, accepted, drained, bytes, sent}
use yoru_speech.App.Loop.{Writes, serves, goes, completes}
use yoru_speech.Ipc.Server.{Server, new_server}
use yoru_speech.App.Samples.{configurations}
use yoru_speech.App.Program.{Program, create}
use yoru_speech.App.Loop.{loop}
use yoru_speech.App.Loop.{Host}
use yoru_speech.App.Loop.Memory.{IsBounded, loop-IsBounded}
use yoru_speech.App.Main.{Machine, main}
use yoru_speech.App.Main.Ending.{Ends, main_lem}

abbrev writes : Writes
writes id text = sent 4096 ∷ []

-- Client 7 connects, and then sends a command.
abbrev accepting : Poll
accepting = record {
  ready = true;
  wake_readable = false;
  listen_readable = true;
  accepts = accepted 7 ∷ drained ∷ [];
  reads = λ id. none;
}

abbrev reading : Poll
reading = record {
  ready = true;
  wake_readable = false;
  listen_readable = false;
  accepts = [];
  reads = λ id. some (bytes (lit "{}\n"));
}

-- A stale socket file, and a client that stays connected.
abbrev machine : Machine ℕ
machine = record {
  xdg_runtime_dir = some (lit "/run/user/1000");
  xdg_data_home = none;
  home = some (lit "/home/yoru");
  disk = record { target = none; temporary = none };
  file_system = surroundings.file_system;
  listing = opened scan;
  answers = answers;
  sockets = record {
    probe = Opened.opened 3;
    probe_flags = some 2;
    connect = refused;
    socket = Opened.opened 3;
    bind_error = none;
    listen_error = none;
    flags = some 2;
    eventfd = Opened.opened 4;
  };
  moves =
      serves accepting (λ id text. surroundings) writes
      ∷ serves reading (λ id text. surroundings) writes
      ∷ goes (completes (λ q. q)) writes
      ∷ [];
  stopped_at = 9;
  rest = λ q. q;
}

abbrev program : Program ℕ
program = create configurations 3

abbrev listening_server : Server
listening_server = record new_server { listening = true }

main_example :
    Ends set_language
      (0 ∷ 1 ∷ 2 ∷ [], true)
      machine
      (main set_language toml local_time copy floats config backend machine)
main_example =
    main_lem set_language toml local_time copy floats config backend machine (0 ∷ 1 ∷ 2 ∷ [], true)

abbrev host : Host ℕ
host = record { server = listening_server; program = some program }

loop-IsBounded_example :
    IsBounded
      (loop set_language toml local_time copy floats config backend machine.moves host).server
loop-IsBounded_example =
    loop-IsBounded set_language toml local_time copy floats config backend machine.moves host
      (refl, tt)
