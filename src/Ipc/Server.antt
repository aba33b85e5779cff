-- ===== src/Ipc/Server.antt =====
-- domains/ipc/ipc_server.hpp and ipc_server.cpp. What the system calls answer is an argument of each
-- method. read_buffers is an association list: the order of the std::unordered_map is not specified,
-- and here a new client stands at the end.
pub mod Framing
pub mod Sending
pub mod Memory
pub mod Callbacks
pub mod Sockets
pub mod Descriptors
pub mod Startup
mod Examples
use yoru_speech.Common.{
  ℕ, zero, suc, ◌+◌, ◌*◌, ltb, ◌==◌, Bool, true, false, not, ◌&&◌, ◌||◌, List, [], ◌∷◌, ◌++◌,
  Option, none, some, Text, lit, length, take, drop, is_empty, if◌then◌else◌,
}

abbrev pub ClientId : Type 0
ClientId = ℕ

abbrev pub max_line_bytes : ℕ
max_line_bytes = 1048576

abbrev pub Buffers : Type 0
Buffers = List (ClientId × Text)

-- IpcServer::Impl. `listening` is listen_fd != -1; the eventfd is there exactly then, and
-- `wake_signal` is whether its counter is not zero.
pub record Server : Type 0 where
  pub listening : Bool
  pub wake_signal : Bool
  pub read_buffers : Buffers
  pub pending_disconnects : List ClientId

unfoldable pub contains : ClientId → Buffers → Bool
contains id [] = false
contains id ((k, b) ∷ bs) = k == id || contains id bs

unfoldable pub buffer_of : ClientId → Buffers → Text
buffer_of id [] = []
buffer_of id ((k, b) ∷ bs) = if k == id then b else buffer_of id bs

-- read_buffers[id] = text
unfoldable pub set_buffer : ClientId → Text → Buffers → Buffers
set_buffer id text [] = (id, text) ∷ []
set_buffer id text ((k, b) ∷ bs) =
    let rest = set_buffer id text bs in if k == id then (k, text) ∷ bs else (k, b) ∷ rest

-- read_buffers.erase(id)
unfoldable pub erase : ClientId → Buffers → Buffers
erase id [] = []
erase id ((k, b) ∷ bs) = let rest = erase id bs in if k == id then bs else (k, b) ∷ rest

abbrev pub client_ids : Buffers → List ClientId
client_ids [] = []
client_ids ((k, b) ∷ bs) = k ∷ client_ids bs

abbrev pub new_server : Server
new_server = record {
  listening = false;
  wake_signal = false;
  read_buffers = [];
  pending_disconnects = [];
}

unfoldable pub stop : Server → Server
stop s = if s.listening then new_server else s

unfoldable pub wake : Server → Server
wake s = if s.listening then record s { wake_signal = true } else s

-- find('\n'): the line before it, and what erase leaves.
unfoldable pub next_line : Text → Option (Text × Text)
next_line [] = none
next_line (c ∷ cs) =
    if c == 10
    then some ([], cs)
    else elim (next_line cs) [ none ↦ none | some (line, rest) ↦ some (c ∷ line, rest) ]

pub data ReadResult : Type 0 where
  bytes : Text → ReadResult
  end_of_file : ReadResult
  -- EAGAIN, EWOULDBLOCK or EINTR.
  not_ready : ReadResult
  read_failed : ReadResult

pub data AcceptResult : Type 0 where
  accepted : ClientId → AcceptResult
  -- EINTR or ECONNABORTED.
  retried : AcceptResult
  drained : AcceptResult

-- One round of poll: whether it returned a positive number, which descriptors were readable, what
-- accept answered in turn, and what read answered for each client with an event.
pub record Poll : Type 0 where
  pub ready : Bool
  pub wake_readable : Bool
  pub listen_readable : Bool
  pub accepts : List AcceptResult
  pub reads : ClientId → Option ReadResult

unfoldable pub accept_all : List AcceptResult → Buffers → Buffers
accept_all [] bs = bs
accept_all (accepted id ∷ more) bs = accept_all more (set_buffer id (buffer_of id bs) bs)
accept_all (retried ∷ more) bs = accept_all more bs
accept_all (drained ∷ more) bs = bs

-- `Y` is all that the callbacks can change: pending_disconnects and what is outside the server.
module _ {Y : Type 0} where
  -- The loop over the complete lines of a buffer; the fuel is the length of the buffer.
  unfoldable pub deliver : (Text → Y → Y) → ℕ → Text → Y → Text × Y
  deliver on_line zero buffer y = (buffer, y)
  deliver on_line (suc fuel) buffer y = elim (next_line buffer) [
    | none ↦ (buffer, y)
    | some (line, rest) ↦ deliver on_line fuel rest (on_line line y)
  ]

  unfoldable pub receive : (Text → Y → Y) → Text → Text → Y → Text × Y
  unfolding deliver
  receive on_line chunk buffer y = deliver on_line (length (buffer ++ chunk)) (buffer ++ chunk) y

  -- The buffers, the clients to disconnect, and the rest, after one client's read.
  read_client :
      (ClientId → Text → Y → Y)
      → ClientId
      → Option ReadResult
      → Buffers
      → Y
      → Buffers × List ClientId × Y
  unfolding receive
  read_client on_line id none bs y = (bs, [], y)
  read_client on_line id (some end_of_file) bs y = (bs, id ∷ [], y)
  read_client on_line id (some not_ready) bs y = (bs, [], y)
  read_client on_line id (some read_failed) bs y = (bs, id ∷ [], y)
  read_client on_line id (some (bytes chunk)) bs y =
      let (buffer, y') = receive (on_line id) chunk (buffer_of id bs) y in
      (set_buffer id buffer bs, if ltb max_line_bytes (length buffer) then id ∷ [] else [], y')

  unfoldable pub read_all :
      (ClientId → Text → Y → Y)
      → (ClientId → Option ReadResult)
      → List ClientId
      → Buffers
      → Y
      → Buffers × List ClientId × Y
  unfolding read_client
  read_all on_line reads [] bs y = (bs, [], y)
  read_all on_line reads (id ∷ ids) bs y =
      let (bs', gone, y') = read_client on_line id (reads id) bs y in
      let (bs'', gone', y'') = read_all on_line reads ids bs' y' in (bs'', gone ++ gone', y'')

  unfoldable pub disconnect_all : (ClientId → Y → Y) → List ClientId → Buffers → Y → Buffers × Y
  disconnect_all on_disconnect [] bs y = (bs, y)
  disconnect_all on_disconnect (id ∷ ids) bs y =
      if contains id bs
      then disconnect_all on_disconnect ids (erase id bs) (on_disconnect id y)
      else disconnect_all on_disconnect ids bs y

-- `X` is the callbacks' own state; the first component is pending_disconnects. `on_line` is also
-- given the clients that are connected, as send_line sees them.
module _ {X : Type 0}
    (on_line : List ClientId → ClientId → Text → List ClientId × X → List ClientId × X)
    (on_disconnect : ClientId → List ClientId × X → List ClientId × X) where
  poll_ready : Poll → Buffers → Bool → List ClientId × X → Server × X
  unfolding accept_all read_all disconnect_all
  poll_ready p bs signal y =
      let polled = client_ids bs in
      let bs₁ = if p.listen_readable then accept_all p.accepts bs else bs in
      let (bs₂, gone, y₁) = read_all (on_line (client_ids bs₁)) p.reads polled bs₁ y in
      let (bs₃, y₂) = disconnect_all on_disconnect gone bs₂ y₁ in
      (
        record {
          listening = true;
          wake_signal = if p.wake_readable then false else signal;
          read_buffers = bs₃;
          pending_disconnects = y₂.0;
        },
        y₂.1,
      )

  unfoldable pub poll_once : Poll → Server → X → Server × X
  unfolding poll_ready disconnect_all
  poll_once p s x =
      if not s.listening
      then (s, x)
      else (let (bs, y) =
            disconnect_all on_disconnect s.pending_disconnects s.read_buffers
              (s.pending_disconnects, x) in
          if p.ready
          then poll_ready p bs s.wake_signal ([], y.1)
          else (record s { read_buffers = bs; pending_disconnects = [] }, y.1))

pub data WriteResult : Type 0 where
  sent : ℕ → WriteResult
  interrupted : WriteResult
  refused : WriteResult

-- How send_line's loop ends, with the bytes that were written; the answers of write may not be
-- enough for the loop to end.
pub data SendEnd : Type 0 where
  all_sent gave_up still_sending : SendEnd

unfoldable pub send_loop : List WriteResult → Text → Text × SendEnd
send_loop answers [] = ([], all_sent)
send_loop [] (c ∷ cs) = ([], still_sending)
send_loop (interrupted ∷ answers) (c ∷ cs) = send_loop answers (c ∷ cs)
send_loop (refused ∷ answers) (c ∷ cs) = ([], gave_up)
send_loop (sent zero ∷ answers) (c ∷ cs) = ([], gave_up)
send_loop (sent (suc n) ∷ answers) (c ∷ cs) =
    let (more, end) = send_loop answers (drop n cs) in (c ∷ take n cs ++ more, end)

unfoldable pub listed : ClientId → List ClientId → Bool
listed id [] = false
listed id (k ∷ ks) = k == id || listed id ks

unfoldable pub give_up : ClientId → List ClientId → List ClientId
unfolding listed
give_up id pending = if listed id pending then pending else pending ++ id ∷ []

after_send : ClientId → SendEnd → List ClientId → List ClientId
unfolding give_up
after_send id gave_up pending = give_up id pending
after_send id _ pending = pending

-- The new pending_disconnects and what the client was sent.
unfoldable pub send_line :
    List WriteResult → ClientId → Text → List ClientId → List ClientId → List ClientId × Text
unfolding send_loop after_send listed
send_line answers id line connected pending =
    if listed id connected
    then (let (written, end) = send_loop answers (line ++ 10 ∷ []) in
        (after_send id end pending, written))
    else (pending, [])
