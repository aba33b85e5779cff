-- ===== src/Ipc/Server/Descriptors.antt =====
-- The descriptors and the socket file over the calls that start of ipc_server.cpp makes.
use yoru_speech.Common.{
  ℕ, ◌==◌, ◌≡◌, refl, sym, ap, ◌∙◌, Bool, true, false, List, [], ◌∷◌, ◌++◌, Option, none, some,
  Text, if◌then◌else◌, arith,
}
use yoru_speech.Ipc.Server.Sockets.{
  Opened, opened, failed, Call, open_fd, close_fd, set_flags, bind, listen, unlink, Answers,
  Sockets, set_nonblocking, probe_socket, make_wake_fd, start_listening, bind_socket, create_socket,
}

-- The open descriptors, and whether there is a socket file.
abbrev pub World : Type 0
World = List ℕ × Bool

abbrev without : ℕ → List ℕ → List ℕ
without fd [] = []
without fd (k ∷ ks) = if k == fd then ks else k ∷ without fd ks

-- What a call does, where those of unlink and close succeed. start and stop do not look at their
-- answers.
abbrev pub effect : Call → World → World
effect (open_fd fd) (fds, file) = (fd ∷ fds, file)
effect (close_fd fd) (fds, file) = (without fd fds, file)
effect (set_flags fd flags) w = w
effect (bind fd) (fds, file) = (fds, true)
effect (listen fd) w = w
effect unlink (fds, file) = (fds, false)

abbrev pub after : List Call → World → World
after [] w = w
after (call ∷ calls) w = after calls (effect call w)

pub after-append : (xs ys : List Call) (w : World) → after (xs ++ ys) w ≡ after ys (after xs w)
after-append [] ys w = refl
after-append (x ∷ xs) ys w = after-append xs ys (effect x w)

pub without-head : (fd : ℕ) (fds : List ℕ) → without fd (fd ∷ fds) ≡ fds
without-head fd fds = ground arith

after-set_nonblocking :
    (fd : ℕ) (flags : Option ℕ) (w : World) → after (set_nonblocking fd flags) w ≡ w
unfolding set_nonblocking
after-set_nonblocking fd none w = refl
after-set_nonblocking fd (some flags) w = refl

-- Asking whether the path is live leaves nothing behind.
pub after-probe_socket : (o : Opened) (a : Answers) (w : World) → after (probe_socket o a).0 w ≡ w
unfolding probe_socket
after-probe_socket (failed error) a w = refl
after-probe_socket (opened fd) a (fds, file) =
    after-append (set_nonblocking fd a.probe_flags) (close_fd fd ∷ []) (fd ∷ fds, file)
    ∙ ap (λ w. effect (close_fd fd) w) (after-set_nonblocking fd a.probe_flags (fd ∷ fds, file))
    ∙ ap (λ ks. (ks, file)) (without-head fd fds)

-- From the point where the socket fd is open: the file is made, or nothing but fd's close is left of
-- it.
abbrev Ends : Sockets → ℕ → World → List Call × Sockets × Option Text → Type 0
Ends s fd w (calls, s', none) =
    (wake_fd : ℕ) × (s' ≡ record { listen_fd = some fd; wake_fd = some wake_fd })
    × (after calls w ≡ (wake_fd ∷ w.0, true))
Ends s fd w (calls, s', some error) = (s' ≡ s) × (after calls w ≡ (without fd w.0, false))

Ends-after :
    (s s' : Sockets) (fd : ℕ) (v w : World) (before calls : List Call) (error : Option Text)
    → after before v ≡ w
    → v.0 ≡ w.0
    → Ends s fd w (calls, s', error)
    → Ends s fd v (before ++ calls, s', error)
Ends-after s s' fd v w before calls none e same (wake_fd, stored, end) = (
  wake_fd,
  stored,
  after-append before calls v
      ∙ ap (after calls) e
      ∙ end
      ∙ ap (λ fds. (wake_fd ∷ fds, true)) (sym same),
)
Ends-after s s' fd v w before calls (some error) e same (kept, end) = (
  kept,
  after-append before calls v
      ∙ ap (after calls) e
      ∙ end
      ∙ ap (λ fds. (without fd fds, false)) (sym same),
)

make_wake_fd-Ends :
    (o : Opened) (fd : ℕ) (s : Sockets) (fds : List ℕ) → Ends s fd (fds, true) (make_wake_fd o fd s)
unfolding make_wake_fd
make_wake_fd-Ends (failed error) fd s fds = (refl, refl)
make_wake_fd-Ends (opened wake_fd) fd s fds = (wake_fd, refl, refl)

start_listening-Ends :
    (o : Option Text) (a : Answers) (fd : ℕ) (s : Sockets) (fds : List ℕ)
    → Ends s fd (fds, true) (start_listening o a fd s)
unfolding start_listening
start_listening-Ends (some error) a fd s fds = (refl, refl)
start_listening-Ends none a fd s fds =
    let (calls, s', error) = make_wake_fd a.eventfd fd s in
    Ends-after s s' fd (fds, true) (fds, true) (listen fd ∷ set_nonblocking fd a.flags) calls error
      (after-set_nonblocking fd a.flags (fds, true)) refl (make_wake_fd-Ends a.eventfd fd s fds)

bind_socket-Ends :
    (o : Option Text) (a : Answers) (fd : ℕ) (s : Sockets) (fds : List ℕ)
    → Ends s fd (fds, false) (bind_socket o a fd s)
unfolding bind_socket
bind_socket-Ends (some error) a fd s fds = (refl, refl)
bind_socket-Ends none a fd s fds =
    let (calls, s', error) = start_listening a.listen_error a fd s in
    Ends-after s s' fd (fds, false) (fds, true) (bind fd ∷ []) calls error refl refl
      (start_listening-Ends a.listen_error a fd s fds)

-- From the point where no instance answers: both descriptors and the file, or what there was, and no
-- file.
abbrev pub Opens : Sockets → World → List Call × Sockets × Option Text → Type 0
Opens s w (calls, s', none) =
    (fd : ℕ) × (wake_fd : ℕ) × (s' ≡ record { listen_fd = some fd; wake_fd = some wake_fd })
    × (after calls w ≡ (wake_fd ∷ fd ∷ w.0, true))
Opens s w (calls, s', some error) = (s' ≡ s) × (after calls w ≡ (w.0, false))

opens :
    (s s' : Sockets) (fd : ℕ) (fds : List ℕ) (calls : List Call) (error : Option Text)
    → Ends s fd (fd ∷ fds, false) (calls, s', error)
    → Opens s (fds, false) (open_fd fd ∷ calls, s', error)
opens s s' fd fds calls none (wake_fd, stored, end) = (fd, wake_fd, stored, end)
opens s s' fd fds calls (some error) (kept, end) =
    (kept, end ∙ ap (λ ks. (ks, false)) (without-head fd fds))

pub create_socket-Opens :
    (o : Opened) (a : Answers) (s : Sockets) (fds : List ℕ)
    → Opens s (fds, false) (create_socket o a s)
unfolding create_socket
create_socket-Opens (failed error) a s fds = (refl, refl)
create_socket-Opens (opened fd) a s fds =
    let (calls, s', error) = bind_socket a.bind_error a fd s in
    opens s s' fd fds calls error (bind_socket-Ends a.bind_error a fd s (fd ∷ fds))
