-- ===== src/Ipc/Server/Sockets.antt =====
-- domains/ipc/ipc_server.cpp: start, stop and is_socket_live call by call, with the descriptors they
-- open and close and the socket file they make and remove. What the calls answer is an argument.
use yoru_speech.Common.{
  ℕ, ◌+◌, ◌/◌, ◌%◌, leb, ◌==◌, Bool, true, false, List, [], ◌∷◌, ◌++◌, Option, none, some, Text,
  lit, length, if◌then◌else◌,
}
use yoru_speech.Speech.Paths.{join_path}
use yoru_speech.Ipc.Server.{ClientId}

-- A descriptor that a call returned, or strerror(errno).
pub data Opened : Type 0 where
  opened : ℕ → Opened
  failed : Text → Opened

pub data ConnectResult : Type 0 where
  connected in_progress would_block refused : ConnectResult

-- The calls that change descriptors or the file system, those that failed left out.
pub data Call : Type 0 where
  open_fd : ℕ → Call
  close_fd : ℕ → Call
  set_flags : ℕ → ℕ → Call
  bind : ℕ → Call
  listen : ℕ → Call
  unlink : Call

-- fcntl's flags are `none` when F_GETFL fails, and an error is the text of errno.
pub record Answers : Type 0 where
  pub probe : Opened
  pub probe_flags : Option ℕ
  pub connect : ConnectResult
  pub socket : Opened
  pub bind_error : Option Text
  pub listen_error : Option Text
  pub flags : Option ℕ
  pub eventfd : Opened

-- listen_fd and wake_fd; `none` is -1.
pub record Sockets : Type 0 where
  pub listen_fd : Option ℕ
  pub wake_fd : Option ℕ

unfoldable pub errno_message : Text → Text → Text
errno_message what error = what ++ (lit ": " ++ error)

-- flags | O_NONBLOCK, with Linux's 04000.
unfoldable pub with_nonblock : ℕ → ℕ
with_nonblock flags = if flags / 2048 % 2 == 1 then flags else flags + 2048

unfoldable pub set_nonblocking : ℕ → Option ℕ → List Call
unfolding with_nonblock
set_nonblocking fd none = []
set_nonblocking fd (some flags) = set_flags fd (with_nonblock flags) ∷ []

-- The errors that mean a full backlog count as an answer.
unfoldable pub reached : ConnectResult → Bool
reached refused = false
reached _ = true

-- socket() of is_socket_live has answered.
unfoldable pub probe_socket : Opened → Answers → List Call × Bool
unfolding set_nonblocking reached
probe_socket (failed error) a = ([], false)
probe_socket (opened fd) a =
    (open_fd fd ∷ (set_nonblocking fd a.probe_flags ++ close_fd fd ∷ []), reached a.connect)

unfoldable pub is_socket_live : Answers → List Call × Bool
unfolding probe_socket
is_socket_live a = probe_socket a.probe a

-- sizeof(sockaddr_un::sun_path)
abbrev pub sun_path_size : ℕ
sun_path_size = 108

-- start from the answer of eventfd on: the fields' stores.
unfoldable pub make_wake_fd : Opened → ℕ → Sockets → List Call × Sockets × Option Text
unfolding errno_message
make_wake_fd (failed error) fd s =
    (close_fd fd ∷ unlink ∷ [], s, some (errno_message (lit "failed to create wake eventfd") error))
make_wake_fd (opened wake_fd) fd s =
    (open_fd wake_fd ∷ [], record { listen_fd = some fd; wake_fd = some wake_fd }, none)

-- From the answer of listen on.
unfoldable pub start_listening :
    Option Text → Answers → ℕ → Sockets → List Call × Sockets × Option Text
unfolding errno_message set_nonblocking make_wake_fd
start_listening (some error) a fd s =
    (close_fd fd ∷ unlink ∷ [], s, some (errno_message (lit "failed to listen on socket") error))
start_listening none a fd s =
    let (calls, s', error) = make_wake_fd a.eventfd fd s in
    (listen fd ∷ (set_nonblocking fd a.flags ++ calls), s', error)

-- From the answer of bind on.
unfoldable pub bind_socket : Option Text → Answers → ℕ → Sockets → List Call × Sockets × Option Text
unfolding errno_message start_listening
bind_socket (some error) a fd s =
    (close_fd fd ∷ [], s, some (errno_message (lit "failed to bind socket") error))
bind_socket none a fd s =
    let (calls, s', error) = start_listening a.listen_error a fd s in (bind fd ∷ calls, s', error)

-- From the answer of socket on.
unfoldable pub create_socket : Opened → Answers → Sockets → List Call × Sockets × Option Text
unfolding errno_message bind_socket
create_socket (failed error) a s =
    ([], s, some (errno_message (lit "failed to create socket") error))
create_socket (opened fd) a s =
    let (calls, s', error) = bind_socket a.bind_error a fd s in (open_fd fd ∷ calls, s', error)

-- A socket file that nobody listens on is removed first.
unfoldable pub replace_stale :
    List Call × Bool → Text → Answers → Sockets → List Call × Sockets × Option Text
unfolding create_socket
replace_stale (probing, true) path a s =
    (probing, s, some (lit "another instance is already listening on " ++ path))
replace_stale (probing, false) path a s =
    let (calls, s', error) = create_socket a.socket a s in (probing ++ unlink ∷ calls, s', error)

unfoldable pub start_stopped : Text → Answers → Sockets → List Call × Sockets × Option Text
unfolding is_socket_live replace_stale
start_stopped path a s =
    if leb sun_path_size (length path)
    then ([], s, some (lit "socket path is too long for a Unix domain socket: " ++ path))
    else replace_stale (is_socket_live a) path a s

unfoldable pub start : Text → Answers → Sockets → List Call × Sockets × Option Text
unfolding start_stopped
start path a s = elim (s.listen_fd) [
  | some fd ↦ ([], s, some (lit "server is already running"))
  | none ↦ start_stopped path a s
]

unfoldable pub close_all : List ClientId → List Call
close_all [] = []
close_all (id ∷ ids) = close_fd id ∷ close_all ids

unfoldable pub close_wake : Option ℕ → List Call
close_wake none = []
close_wake (some fd) = close_fd fd ∷ []

-- The clients are those of read_buffers.
unfoldable pub stop : List ClientId → Sockets → List Call × Sockets
unfolding close_all close_wake
stop ids s = elim (s.listen_fd) [
  | none ↦ ([], s)
  | some fd ↦ (
    close_all ids ++ close_fd fd ∷ unlink ∷ close_wake s.wake_fd,
    record { listen_fd = none; wake_fd = none },
  )
]

-- getenv("XDG_RUNTIME_DIR") is the argument.
unfoldable pub default_socket_path : Option Text → Text
default_socket_path none = lit "/tmp/yoru-speech.sock"
default_socket_path (some xdg_runtime_dir) = join_path xdg_runtime_dir (lit "yoru-speech.sock")
