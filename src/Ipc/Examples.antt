-- ===== src/Ipc/Examples.antt =====
-- Runs of the IPC server.
use yoru_speech.Common.{
  ◌≡◌, refl, true, false, List, [], ◌∷◌, ◌++◌, Option, none, some, Text, lit, arith, flatten,
  if◌then◌else◌, ◌==◌,
}
use yoru_speech.Ipc.Server.{
  ClientId, Server, Poll, ReadResult, bytes, accepted, drained, sent, interrupted, refused,
  WriteResult, poll_once, send_line, contains, erase, set_buffer, buffer_of, next_line,
}
use yoru_speech.Ipc.Server.Framing.{split_lines}
use yoru_speech.Ipc.Server.Framing.Reading.{Reads, read_each, read_each_lem}
use yoru_speech.Ipc.Server.Sending.{IsOnce, Reaches, send_line_lem}

abbrev collect : Text → List Text → List Text
collect line lines = lines ++ line ∷ []

-- "get" and "state" arrive apart, and a second line follows in the same read.
abbrev chunks : List Text
chunks = lit "get" ∷ lit "_state\nlist" ∷ lit "_models\nx" ∷ []

chunks_lines : split_lines (flatten chunks) ≡ (lit "get_state" ∷ lit "list_models" ∷ [], lit "x")
unfolding lit
chunks_lines = refl

-- Client 5 has just connected.
read_each_example :
    Reads
      (λ id line lines. collect line lines)
      5
      []
      chunks
      []
      (read_each (λ id line lines. collect line lines) 5 chunks ((5, []) ∷ []) [])
unfolding buffer_of
read_each_example =
    read_each_lem (λ id line lines. collect line lines) 5 chunks ((5, []) ∷ []) [] refl

-- Two bytes go out, a signal arrives, and then the client does not read.
abbrev answers : List WriteResult
answers = sent 2 ∷ interrupted ∷ refused ∷ refused ∷ refused ∷ []

cut_short : send_line answers 5 (lit "ack") (5 ∷ []) (9 ∷ []) ≡ (9 ∷ 5 ∷ [], lit "ac")
unfolding send_line lit
cut_short = refl

send_line_example :
    let r = send_line answers 5 (lit "ack") (5 ∷ []) [] in
    IsOnce r.0 × Reaches 5 (lit "ack" ++ 10 ∷ []) (5 ∷ []) [] r
unfolding lit
send_line_example = send_line_lem answers 5 (lit "ack") (5 ∷ []) [] (λ k. omega arith) (omega arith)

-- Client 5 was given up; client 6 sends a line and a half; client 7 connects.
abbrev server : Server
server = record {
  listening = true;
  wake_signal = false;
  read_buffers = (5, []) ∷ (6, lit "ge") ∷ [];
  pending_disconnects = 5 ∷ [];
}

abbrev read_of : ClientId → Option ReadResult
read_of id = if id == 6 then some (bytes (lit "t\nli")) else none

abbrev round : Poll
round = record {
  ready = true;
  wake_readable = false;
  listen_readable = true;
  accepts = accepted 7 ∷ drained ∷ [];
  reads = read_of;
}

abbrev on_line :
    List ClientId → ClientId → Text → List ClientId × List Text → List ClientId × List Text
on_line connected id line (pending, lines) = (pending, lines ++ line ∷ [])

abbrev on_disconnect : ClientId → List ClientId × List Text → List ClientId × List Text
on_disconnect id (pending, lines) = (pending, lines ++ lit "gone" ∷ [])

round_lem :
    let t = poll_once on_line on_disconnect round server [] in
    (t.0.read_buffers ≡ (6, lit "li") ∷ (7, []) ∷ []) × (t.1 ≡ lit "gone" ∷ lit "get" ∷ [])
unfolding poll_once lit contains erase set_buffer buffer_of next_line
round_lem = (refl, refl)
