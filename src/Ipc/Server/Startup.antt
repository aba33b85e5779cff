-- ===== src/Ipc/Server/Startup.antt =====
-- The descriptors and the socket file over start and stop of ipc_server.cpp.
use yoru_speech.Common.{
  ℕ, leb, ◌≡◌, refl, ap, ◌∙◌, ◌⊎◌, inl, inr, Bool, true, false, List, [], ◌∷◌, ◌++◌, Option, none,
  some, Text, lit, length, if◌then◌else◌, arith,
}
use mathlib.Core.Path.{subst}
use yoru_speech.Ipc.Server.{ClientId}
use yoru_speech.Ipc.Server.Sockets.{
  Call, close_fd, unlink, Answers, Sockets, is_socket_live, sun_path_size, create_socket,
  replace_stale, start_stopped, start, close_all, close_wake, stop,
}
use yoru_speech.Ipc.Server.Descriptors.{
  World, after, after-append, without-head, after-probe_socket, Opens, create_socket-Opens,
}

-- Both descriptors and the file, where there was no instance and none answered; or what there was,
-- and then the file is gone only where none answered.
abbrev pub Leaves : Bool → Sockets → World → List Call × Sockets × Option Text → Type 0
Leaves live s w (calls, s', none) =
    (s.listen_fd ≡ none) × (live ≡ false) × Opens s w (calls, s', none)
Leaves live s w (calls, s', some error) =
    (s' ≡ s)
    × ((after calls w).0 ≡ w.0)
    × (((after calls w).1 ≡ w.1) ⊎ ((live ≡ false) × ((after calls w).1 ≡ false)))

leaves :
    (s : Sockets) (fds : List ℕ) (file : Bool) (probing : List Call)
    (o : List Call × Sockets × Option Text)
    → s.listen_fd ≡ none
    → after probing (fds, file) ≡ (fds, file)
    → Opens s (fds, false) o
    → Leaves false s (fds, file) (probing ++ unlink ∷ o.0, o.1, o.2)
leaves s fds file probing (calls, s', none) stopped quiet (fd, wake_fd, stored, end) = (
  stopped,
  refl,
  (
    fd,
    wake_fd,
    stored,
    after-append probing (unlink ∷ calls) (fds, file) ∙ ap (after (unlink ∷ calls)) quiet ∙ end,
  ),
)
leaves s fds file probing (calls, s', some error) stopped quiet (kept, end) =
    let e =
      after-append probing (unlink ∷ calls) (fds, file) ∙ ap (after (unlink ∷ calls)) quiet ∙ end in
    (kept, ap (λ w. w.0) e, inr (refl, ap (λ w. w.1) e))

replace_stale-Leaves :
    (probe : List Call × Bool) (path : Text) (a : Answers) (s : Sockets) (w : World)
    → s.listen_fd ≡ none
    → after probe.0 w ≡ w
    → Leaves probe.1 s w (replace_stale probe path a s)
unfolding replace_stale
replace_stale-Leaves (probing, true) path a s w stopped quiet =
    (refl, ap (λ w. w.0) quiet, inl (ap (λ w. w.1) quiet))
replace_stale-Leaves (probing, false) path a s (fds, file) stopped quiet =
    leaves s fds file probing (create_socket a.socket a s) stopped quiet
      (create_socket-Opens a.socket a s fds)

start_stopped-Leaves :
    (path : Text) (a : Answers) (s : Sockets) (w : World)
    → s.listen_fd ≡ none
    → Leaves (is_socket_live a).1 s w (start_stopped path a s)
unfolding start_stopped is_socket_live
start_stopped-Leaves path a s w stopped =
    elim (leb sun_path_size (length path))
      as (λ too_long. Leaves (is_socket_live a).1 s w (
        if too_long
        then ([], s, some (lit "socket path is too long for a Unix domain socket: " ++ path))
        else replace_stale (is_socket_live a) path a s)) [
          | true ↦ (refl, refl, inl refl)
          | false ↦
              replace_stale-Leaves (is_socket_live a) path a s w stopped
                (after-probe_socket a.probe a w)
        ]

started-Leaves :
    (listen_fd wake_fd : Option ℕ) (path : Text) (a : Answers) (w : World)
    → let s : Sockets = record { listen_fd = listen_fd; wake_fd = wake_fd } in
      Leaves (is_socket_live a).1 s w (start path a s)
unfolding start
started-Leaves none wake_fd path a w =
    start_stopped-Leaves path a (record { listen_fd = none; wake_fd = wake_fd }) w refl
started-Leaves (some fd) wake_fd path a w = (refl, refl, inl refl)

-- Whatever the system calls of start answer (those of unlink and close apart, which it does not look
-- at): when start returns no error, the server was not running, no instance answered at the path, and
-- there are two descriptors more, which are the server's, and a socket file; when it returns an
-- error, the server has not changed, the open descriptors are those there were, and the socket file
-- is as it was, or no instance answered at the path and there is no file.
pub start-Leaves :
    (path : Text) (a : Answers) (s : Sockets) (w : World)
    → Leaves (is_socket_live a).1 s w (start path a s)
start-Leaves path a s w = started-Leaves s.listen_fd s.wake_fd path a w

after-close_all :
    (ids : List ClientId) (fds : List ℕ) (file : Bool)
    → after (close_all ids) (ids ++ fds, file) ≡ (fds, file)
unfolding close_all
after-close_all [] fds file = refl
after-close_all (id ∷ ids) fds file =
    ap (λ ks. after (close_all ids) (ks, file)) (without-head id (ids ++ fds))
    ∙ after-close_all ids fds file

close_both :
    (fd wake_fd : ℕ) (fds : List ℕ)
    → after (close_fd fd ∷ unlink ∷ close_fd wake_fd ∷ []) (wake_fd ∷ fd ∷ fds, true) ≡ (fds, false)
close_both fd wake_fd fds = ground arith

stop_opened :
    (fd wake_fd : ℕ) (ids : List ClientId) (fds : List ℕ)
    → let (closing, s) = stop ids (record { listen_fd = some fd; wake_fd = some wake_fd }) in
      (after closing (ids ++ wake_fd ∷ fd ∷ fds, true) ≡ (fds, false))
      × (s ≡ record { listen_fd = none; wake_fd = none })
unfolding stop close_wake
stop_opened fd wake_fd ids fds =
    let rest = close_fd fd ∷ unlink ∷ close_fd wake_fd ∷ [] in
    (
      after-append (close_all ids) rest (ids ++ wake_fd ∷ fd ∷ fds, true)
          ∙ ap (after rest) (after-close_all ids (wake_fd ∷ fd ∷ fds) true)
          ∙ close_both fd wake_fd fds,
      refl,
    )

-- When start has succeeded, stop, with any clients connected since, closes their descriptors and
-- both of the server's, removes the socket file, and leaves a server that is not running.
pub start-stop :
    (path : Text) (a : Answers) (s s' : Sockets) (calls : List Call) (w : World)
    (ids : List ClientId)
    → start path a s ≡ (calls, s', none)
    → let opened = after calls w in
      let (closing, s'') = stop ids s' in
      (after closing (ids ++ opened.0, opened.1) ≡ (w.0, false))
      × (s'' ≡ record { listen_fd = none; wake_fd = none })
start-stop path a s s' calls w ids h =
    let (stopped, quiet, (fd, wake_fd, stored, end)) =
      subst (Leaves (is_socket_live a).1 s w) h (start-Leaves path a s w) in
    rw (stored, end) (stop_opened fd wake_fd ids w.0)
