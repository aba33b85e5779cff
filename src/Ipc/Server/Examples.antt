-- ===== src/Ipc/Server/Examples.antt =====
-- A start of the IPC server whose listen fails.
use yoru_speech.Common.{◌≡◌, true, [], ◌∷◌, none, some, lit, refl}
use yoru_speech.Ipc.Server.Sockets.{
  open_fd, close_fd, set_flags, bind, unlink, Opened, Answers, Sockets, refused, is_socket_live,
  start,
}
use yoru_speech.Ipc.Server.Startup.{Leaves, start-Leaves}

abbrev answers : Answers
answers = record {
  probe = Opened.opened 3;
  probe_flags = some 2;
  connect = refused;
  socket = Opened.opened 3;
  bind_error = none;
  listen_error = some (lit "Address already in use");
  flags = some 2;
  eventfd = Opened.opened 4;
}

abbrev stopped : Sockets
stopped = record { listen_fd = none; wake_fd = none }

start-Leaves_example :
    Leaves
      (is_socket_live answers).1
      stopped
      (0 ∷ 1 ∷ 2 ∷ [], true)
      (start (lit "/tmp/yoru-speech.sock") answers stopped)
start-Leaves_example =
    start-Leaves (lit "/tmp/yoru-speech.sock") answers stopped (0 ∷ 1 ∷ 2 ∷ [], true)

-- The probe finds nobody, and the socket is closed again after listen.
start_calls :
    (start (lit "/tmp/yoru-speech.sock") answers stopped).0
    ≡ open_fd 3
      ∷ set_flags 3 2050
      ∷ close_fd 3
      ∷ unlink
      ∷ open_fd 3
      ∷ bind 3
      ∷ close_fd 3
      ∷ unlink
      ∷ []
unfolding start lit
start_calls = refl
