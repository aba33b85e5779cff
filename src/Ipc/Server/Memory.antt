-- ===== src/Ipc/Server/Memory.antt =====
-- The read buffers of ipc_server.cpp: one for each client, and none grows beyond kMaxLineBytes.
use yoru_speech.Common.{
  ◌==◌, ltb, ◌≤◌, ◌≡◌, refl, ◌⊎◌, inl, inr, Bool, true, false, ◌||◌, Bool-cases, List, [], ◌∷◌,
  ◌++◌, append_assoc, Option, none, some, Text, length, if◌then◌else◌, arith,
}
use yoru_speech.Ipc.Server.{
  ClientId, Buffers, max_line_bytes, Server, Poll, ReadResult, bytes, end_of_file, not_ready,
  read_failed, AcceptResult, accepted, retried, drained, contains, buffer_of, set_buffer, erase,
  client_ids, accept_all, receive, read_client, read_all, disconnect_all, poll_ready, poll_once,
  listed,
}
use yoru_speech.Ipc.Server.Sending.{listed-append}

abbrev Fits : List ClientId → ClientId → Text → Type 0
Fits gone id text = (length text ≤ max_line_bytes) ⊎ (listed id gone ≡ true)

-- Every client has one buffer, and one of at most max_line_bytes if it is not about to go.
abbrev pub IsSound : List ClientId → Buffers → Type 0
IsSound gone [] = Unit
IsSound gone ((k, b) ∷ bs) = (contains k bs ≡ false) × Fits gone k b × IsSound gone bs

contains-set_buffer :
    (j id : ClientId) (text : Text) (bs : Buffers)
    → contains j (set_buffer id text bs) ≡ (id == j || contains j bs)
unfolding contains set_buffer
contains-set_buffer j id text [] = ground arith
contains-set_buffer j id text ((k, b) ∷ bs) = ground (arith, contains-set_buffer j id text bs)

set_buffer-IsSound :
    (gone : List ClientId) (id : ClientId) (text : Text) (bs : Buffers)
    → Fits gone id text
    → IsSound gone bs
    → IsSound gone (set_buffer id text bs)
unfolding set_buffer contains
set_buffer-IsSound gone id text [] f s = (refl, f, tt)
set_buffer-IsSound gone id text ((k, b) ∷ bs) f (n, g, s) =
    ground (arith, contains-set_buffer k id text bs, set_buffer-IsSound gone id text bs f s)

buffer_of-Fits :
    (gone : List ClientId) (id : ClientId) (bs : Buffers)
    → IsSound gone bs
    → Fits gone id (buffer_of id bs)
unfolding buffer_of
buffer_of-Fits gone id [] s = inl (omega arith)
buffer_of-Fits gone id ((k, b) ∷ bs) (n, g, s) = ground (arith, buffer_of-Fits gone id bs s)

accept_all-IsSound :
    (gone : List ClientId) (answers : List AcceptResult) (bs : Buffers)
    → IsSound gone bs
    → IsSound gone (accept_all answers bs)
unfolding accept_all
accept_all-IsSound gone [] bs s = s
accept_all-IsSound gone (accepted id ∷ more) bs s =
    accept_all-IsSound gone more (set_buffer id (buffer_of id bs) bs)
      (set_buffer-IsSound gone id (buffer_of id bs) bs (buffer_of-Fits gone id bs s) s)
accept_all-IsSound gone (retried ∷ more) bs s = accept_all-IsSound gone more bs s
accept_all-IsSound gone (drained ∷ more) bs s = s

listed-append_left :
    (id : ClientId) (ks ls : List ClientId) → listed id ks ≡ true → listed id (ks ++ ls) ≡ true
unfolding listed
listed-append_left id [] ls h = ground arith
listed-append_left id (k ∷ ks) ls h = ground (arith, listed-append_left id ks ls)

append-IsSound :
    (gone more : List ClientId) (bs : Buffers) → IsSound gone bs → IsSound (gone ++ more) bs
append-IsSound gone more [] s = tt
append-IsSound gone more ((k, b) ∷ bs) (n, inl f, s) = (n, inl f, append-IsSound gone more bs s)
append-IsSound gone more ((k, b) ∷ bs) (n, inr g, s) =
    (n, inr (listed-append_left k gone more g), append-IsSound gone more bs s)

contains-erase :
    (j id : ClientId) (bs : Buffers) → contains j bs ≡ false → contains j (erase id bs) ≡ false
unfolding contains erase
contains-erase j id [] h = refl
contains-erase j id ((k, b) ∷ bs) h = ground (arith, contains-erase j id bs)

accepts-IsSound :
    (p : Poll) (bs : Buffers)
    → IsSound [] bs
    → IsSound [] (if p.listen_readable then accept_all p.accepts bs else bs)
accepts-IsSound p bs s = elim (Bool-cases p.listen_readable) [
  | inl e ↦ rw e (accept_all-IsSound [] p.accepts bs s)
  | inr e ↦ rw e s
]

-- A client that is not there needs no exception.
absent-IsSound :
    (id : ClientId) (gone : List ClientId) (bs : Buffers)
    → contains id bs ≡ false
    → IsSound (id ∷ gone) bs
    → IsSound gone bs
unfolding contains listed
absent-IsSound id gone [] h s = tt
absent-IsSound id gone ((k, b) ∷ bs) h (n, f, s) = ground (arith, absent-IsSound id gone bs)

erase-IsSound :
    (id : ClientId) (gone : List ClientId) (bs : Buffers)
    → IsSound (id ∷ gone) bs
    → IsSound gone (erase id bs)
unfolding erase contains listed
erase-IsSound id gone [] s = tt
erase-IsSound id gone ((k, b) ∷ bs) (n, f, s) = elim (Bool-cases (k == id)) [
  | inl e ↦ rw e (absent-IsSound id gone bs (ground arith) s)
  | inr e ↦ rw e (contains-erase k id bs n, ground arith, erase-IsSound id gone bs s)
]

overflow-Fits :
    (gone : List ClientId) (id : ClientId) (buffer : Text)
    → Fits (gone ++ (if ltb max_line_bytes (length buffer) then id ∷ [] else [])) id buffer
overflow-Fits gone id buffer = elim (Bool-cases (ltb max_line_bytes (length buffer))) [
  | inl e ↦ rw e (inr (listed-append id gone))
  | inr e ↦ inl (ground arith)
]

module _ {Y : Type 0} where
  disconnect_all-IsSound :
      (on_disconnect : ClientId → Y → Y) (gone : List ClientId) (bs : Buffers) (y : Y)
      → IsSound gone bs
      → IsSound [] (disconnect_all on_disconnect gone bs y).0
  unfolding disconnect_all
  disconnect_all-IsSound f [] bs y s = s
  disconnect_all-IsSound f (id ∷ ids) bs y s = elim (Bool-cases (contains id bs)) [
    | inl e ↦
        rw (disconnect_all, e)
          (disconnect_all-IsSound f ids (erase id bs) (f id y) (erase-IsSound id ids bs s))
    | inr e ↦
        rw (disconnect_all, e) (disconnect_all-IsSound f ids bs y (absent-IsSound id ids bs e s))
  ]

  read_client-IsSound :
      (on_line : ClientId → Text → Y → Y) (id : ClientId) (r : Option ReadResult)
      (gone : List ClientId) (bs : Buffers) (y : Y)
      → IsSound gone bs
      → let t = read_client on_line id r bs y in IsSound (gone ++ t.1) t.0
  unfolding read_client
  read_client-IsSound on_line id none gone bs y s = append-IsSound gone [] bs s
  read_client-IsSound on_line id (some end_of_file) gone bs y s = append-IsSound gone (id ∷ []) bs s
  read_client-IsSound on_line id (some not_ready) gone bs y s = append-IsSound gone [] bs s
  read_client-IsSound on_line id (some read_failed) gone bs y s = append-IsSound gone (id ∷ []) bs s
  read_client-IsSound on_line id (some (bytes chunk)) gone bs y s =
      let buffer = (receive (on_line id) chunk (buffer_of id bs) y).0 in
      let over = if ltb max_line_bytes (length buffer) then id ∷ [] else [] in
      set_buffer-IsSound (gone ++ over) id buffer bs (overflow-Fits gone id buffer)
        (append-IsSound gone over bs s)

  read_all-IsSound :
      (on_line : ClientId → Text → Y → Y) (reads : ClientId → Option ReadResult)
      (ids gone : List ClientId) (bs : Buffers) (y : Y)
      → IsSound gone bs
      → let t = read_all on_line reads ids bs y in IsSound (gone ++ t.1) t.0
  unfolding read_all
  read_all-IsSound on_line reads [] gone bs y s = append-IsSound gone [] bs s
  read_all-IsSound on_line reads (id ∷ ids) gone bs y s =
      let t = read_client on_line id (reads id) bs y in
      rw (← append_assoc gone t.1 (read_all on_line reads ids t.0 t.2).1) (
        read_all-IsSound on_line reads ids (gone ++ t.1) t.0 t.2
          (read_client-IsSound on_line id (reads id) gone bs y s))

module _ {X : Type 0}
    (on_line : List ClientId → ClientId → Text → List ClientId × X → List ClientId × X)
    (on_disconnect : ClientId → List ClientId × X → List ClientId × X) where
  poll_ready-IsSound :
      (p : Poll) (bs : Buffers) (signal : Bool) (y : List ClientId × X)
      → IsSound [] bs
      → IsSound [] (poll_ready on_line on_disconnect p bs signal y).0.read_buffers
  unfolding poll_ready
  poll_ready-IsSound p bs signal y s =
      let bs₁ = if p.listen_readable then accept_all p.accepts bs else bs in
      let t = read_all (on_line (client_ids bs₁)) p.reads (client_ids bs) bs₁ y in
      disconnect_all-IsSound on_disconnect t.1 t.0 t.2 (
        read_all-IsSound (on_line (client_ids bs₁)) p.reads (client_ids bs) [] bs₁ y
          (accepts-IsSound p bs s))

  -- Whatever poll, accept and read answer and the callbacks do, after a poll_once every client has one
  -- read buffer, of at most kMaxLineBytes bytes, if that was so before, the clients marked for
  -- disconnection excepted.
  pub poll_once-IsSound :
      (p : Poll) (s : Server) (x : X)
      → s.listening ≡ true
      → IsSound s.pending_disconnects s.read_buffers
      → IsSound [] (poll_once on_line on_disconnect p s x).0.read_buffers
  unfolding poll_once
  poll_once-IsSound p s x l h =
      let (bs, y) =
        disconnect_all on_disconnect s.pending_disconnects s.read_buffers
          (s.pending_disconnects, x) in
      let sound =
        disconnect_all-IsSound on_disconnect s.pending_disconnects s.read_buffers
          (s.pending_disconnects, x) h in
      elim (Bool-cases p.ready) [
        | inl e ↦ rw (poll_once, l, e) (poll_ready-IsSound p bs s.wake_signal ([], y.1) sound)
        | inr e ↦ rw (poll_once, l, e) sound
      ]
