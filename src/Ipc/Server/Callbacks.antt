-- ===== src/Ipc/Server/Callbacks.antt =====
-- What the callbacks of poll_once keep, poll_once of ipc_server.cpp keeps: it changes nothing outside
-- the server on its own.
use yoru_speech.Common.{
  ◌≡◌, ℕ, zero, suc, Bool, true, false, List, [], ◌∷◌, ◌++◌, Option, none, some, Text, length,
  if◌then◌else◌, arith,
}
use yoru_speech.Ipc.Server.{
  ClientId, Buffers, Server, ReadResult, bytes, end_of_file, not_ready, read_failed, Poll, contains,
  buffer_of, erase, next_line, client_ids, accept_all, deliver, receive, read_client, read_all,
  disconnect_all, poll_ready, poll_once,
}

module _ {Y : Type 0} (P : Y → Type 0) where
  deliver_keeps :
      (on_line : Text → Y → Y)
      → ((line : Text) (y : Y) → P y → P (on_line line y))
      → (fuel : ℕ) (buffer : Text) (y : Y) → P y
      → P (deliver on_line fuel buffer y).1
  unfolding deliver
  deliver_keeps on_line keeps zero buffer y v = v
  deliver_keeps on_line keeps (suc fuel) buffer y v =
      elim (next_line buffer)
        as (λ found.
          let r : Text × Y = elim found [
            | none ↦ (buffer, y)
            | some (line, rest) ↦ deliver on_line fuel rest (on_line line y)
          ] in
          P r.1) [
            | none ↦ v
            | some (line, rest) ↦
                deliver_keeps on_line keeps fuel rest (on_line line y) (keeps line y v)
          ]

  read_client_keeps :
      (on_line : ClientId → Text → Y → Y)
      → ((id : ClientId) (line : Text) (y : Y) → P y → P (on_line id line y))
      → (id : ClientId) (r : Option ReadResult) (bs : Buffers) (y : Y) → P y
      → P (read_client on_line id r bs y).2
  unfolding read_client receive
  read_client_keeps on_line keeps id none bs y v = v
  read_client_keeps on_line keeps id (some end_of_file) bs y v = v
  read_client_keeps on_line keeps id (some not_ready) bs y v = v
  read_client_keeps on_line keeps id (some read_failed) bs y v = v
  read_client_keeps on_line keeps id (some (bytes chunk)) bs y v =
      deliver_keeps (on_line id) (keeps id) (length (buffer_of id bs ++ chunk))
        (buffer_of id bs ++ chunk) y v

  read_all_keeps :
      (on_line : ClientId → Text → Y → Y)
      → ((id : ClientId) (line : Text) (y : Y) → P y → P (on_line id line y))
      → (reads : ClientId → Option ReadResult) (ids : List ClientId) (bs : Buffers) (y : Y) → P y
      → P (read_all on_line reads ids bs y).2
  unfolding read_all
  read_all_keeps on_line keeps reads [] bs y v = v
  read_all_keeps on_line keeps reads (id ∷ ids) bs y v =
      let (bs', gone, y') = read_client on_line id (reads id) bs y in
      read_all_keeps on_line keeps reads ids bs' y'
        (read_client_keeps on_line keeps id (reads id) bs y v)

  disconnect_all_keeps :
      (on_disconnect : ClientId → Y → Y)
      → ((id : ClientId) (y : Y) → P y → P (on_disconnect id y))
      → (ids : List ClientId) (bs : Buffers) (y : Y) → P y
      → P (disconnect_all on_disconnect ids bs y).1
  unfolding disconnect_all
  disconnect_all_keeps on_disconnect keeps [] bs y v = v
  disconnect_all_keeps on_disconnect keeps (id ∷ ids) bs y v =
      elim (contains id bs)
        as (λ known.
          P
            (if known
              then disconnect_all on_disconnect ids (erase id bs) (on_disconnect id y)
              else disconnect_all on_disconnect ids bs y).1) [
                | true ↦
                    disconnect_all_keeps on_disconnect keeps ids (erase id bs) (on_disconnect id y)
                      (keeps id y v)
                | false ↦ disconnect_all_keeps on_disconnect keeps ids bs y v
              ]

module _ {X : Type 0} (P : X → Type 0)
    (on_line : List ClientId → ClientId → Text → List ClientId × X → List ClientId × X)
    (on_disconnect : ClientId → List ClientId × X → List ClientId × X)
    (line_keeps : (connected : List ClientId) (id : ClientId) (line : Text) (y : List ClientId × X)
      → P y.1
      → P (on_line connected id line y).1)
    (disconnect_keeps : (id : ClientId) (y : List ClientId × X)
      → P y.1
      → P (on_disconnect id y).1) where
  poll_ready_keeps :
      (p : Poll) (bs : Buffers) (signal : Bool) (y : List ClientId × X)
      → P y.1
      → P (poll_ready on_line on_disconnect p bs signal y).1
  unfolding poll_ready
  poll_ready_keeps p bs signal y v =
      let bs₁ = if p.listen_readable then accept_all p.accepts bs else bs in
      let (bs₂, gone, y₁) = read_all (on_line (client_ids bs₁)) p.reads (client_ids bs) bs₁ y in
      disconnect_all_keeps (λ y. P y.1) on_disconnect disconnect_keeps gone bs₂ y₁
        (read_all_keeps (λ y. P y.1) (on_line (client_ids bs₁)) (line_keeps (client_ids bs₁))
          p.reads (client_ids bs) bs₁ y v)

  pub poll_once_keeps :
      (p : Poll) (s : Server) (x : X) → P x → P (poll_once on_line on_disconnect p s x).1
  unfolding poll_once
  poll_once_keeps p s x v =
      let d =
        disconnect_all on_disconnect s.pending_disconnects s.read_buffers
          (s.pending_disconnects, x) in
      let w =
        disconnect_all_keeps (λ y. P y.1) on_disconnect disconnect_keeps s.pending_disconnects
          s.read_buffers (s.pending_disconnects, x) v in
      let ready = poll_ready_keeps p d.0 s.wake_signal ([], d.1.1) w in ground (arith, v, w, ready)

-- Only stop ends it.
pub poll_once-listening :
    {X : Type 0} (on_line : List ClientId → ClientId → Text → List ClientId × X → List ClientId × X)
    (on_disconnect : ClientId → List ClientId × X → List ClientId × X) (p : Poll) (s : Server)
    (x : X)
    → s.listening ≡ true
    → (poll_once on_line on_disconnect p s x).0.listening ≡ true
unfolding poll_once poll_ready
poll_once-listening on_line on_disconnect p s x l = ground (arith, l)
