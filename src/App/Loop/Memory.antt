-- ===== src/App/Loop/Memory.antt =====
-- The server's memory over the run loop of app/main.cpp.
use yoru_speech.Common.{◌≡◌, true, List, [], ◌∷◌, Option, none, some, Text, inl, inr, arith}
use yoru_speech.Config.Toml.{TomlLibrary}
use yoru_speech.Speech.Transcript.{TranscriptionRequest, TranscriptionResult}
use yoru_speech.Session.Silence.{Floats}
use yoru_speech.Session.Live.{LiveConfig}
use yoru_speech.Ipc.Codec.{JsonLibrary}
use yoru_speech.Ipc.Server.{ClientId, Buffers, Server, listed, wake}
use yoru_speech.Ipc.Server.Memory.{IsSound, poll_once-IsSound}
use yoru_speech.Ipc.Server.Callbacks.{poll_once-listening}
use yoru_speech.App.Program.{Program}
use yoru_speech.App.Loop.{
  Writes, Host, Own, Move, serves, goes, rings, disconnect_callback, line_callback, go, move, loop,
}

-- A server that listens, with one buffer of at most kMaxLineBytes bytes for each client.
abbrev pub IsBounded : Server → Type 0
IsBounded server = (server.listening ≡ true) × IsSound [] server.read_buffers

weaken : (gone : List ClientId) (bs : Buffers) → IsSound [] bs → IsSound gone bs
unfolding listed
weaken gone [] v = tt
weaken gone ((k, b) ∷ bs) (new, inl fits, v) = (new, inl fits, weaken gone bs v)
weaken gone ((k, b) ∷ bs) (new, inr going, v) = absurd (ground (arith, going))

module _ (json : JsonLibrary) (toml : TomlLibrary) (local_time : Text) (copy : Text → Option Text)
    {Sample : Type 0} (floats : Floats Sample) (config : LiveConfig Sample)
    (backend : List Sample → TranscriptionRequest → TranscriptionResult) where
  go-IsBounded :
      (own : Own Sample) (writes : Writes) (server : Server) (o : Option (Program Sample))
      → IsBounded server
      → IsBounded (go json toml local_time copy floats config backend own writes server o).server
  unfolding go
  go-IsBounded own writes server none v = v
  go-IsBounded own writes server (some p) v = v

  move-IsBounded :
      (m : Move Sample) (h : Host Sample)
      → IsBounded h.server
      → IsBounded (move json toml local_time copy floats config backend m h).server
  unfolding move wake
  move-IsBounded (serves p out writes) h (l, v) =
      let lines = line_callback json toml local_time copy floats config backend out writes in
      (
        poll_once-listening lines disconnect_callback p h.server h.program l,
        poll_once-IsSound lines disconnect_callback p h.server h.program l
            (weaken h.server.pending_disconnects h.server.read_buffers v),
      )
  move-IsBounded (goes own writes) h v = go-IsBounded own writes h.server h.program v
  move-IsBounded rings h (l, v) = ground (arith, l, v)

  -- Whatever the clients send and however the system calls answer, the server of the run loop keeps
  -- listening, with one read buffer for each client and at most kMaxLineBytes bytes in it, after every
  -- turn, if that was so before.
  pub loop-IsBounded :
      (moves : List (Move Sample)) (h : Host Sample)
      → IsBounded h.server
      → IsBounded (loop json toml local_time copy floats config backend moves h).server
  unfolding loop
  loop-IsBounded [] h v = v
  loop-IsBounded (m ∷ moves) h v =
      loop-IsBounded moves (move json toml local_time copy floats config backend m h)
        (move-IsBounded m h v)
