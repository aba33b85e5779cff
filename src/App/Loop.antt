-- ===== src/App/Loop.antt =====
-- The run loop of app/main.cpp over the server: each poll_once of ipc_service.cpp reads lines from the
-- clients and calls the callbacks, and what they and the other calls send reaches the server. After an
-- exception has ended the process the calls do nothing.
pub mod Simulation
pub mod Memory
use yoru_speech.Common.{
  ℕ, Bool, List, [], ◌∷◌, Option, none, some, Text, length, drop, if◌then◌else◌,
}
use yoru_speech.Config.Toml.{TomlLibrary}
use yoru_speech.Speech.Transcript.{TranscriptionRequest, TranscriptionResult}
use yoru_speech.Audio.Device.{Notification}
use yoru_speech.Session.Queue.{Queue}
use yoru_speech.Session.Silence.{Floats}
use yoru_speech.Session.Live.{LiveConfig}
use yoru_speech.Ipc.Codec.{JsonLibrary}
use yoru_speech.Ipc.Dispatcher.{Surroundings}
use yoru_speech.Ipc.Server.{
  ClientId, Server, Poll, WriteResult, client_ids, poll_once, send_line, wake,
}
use yoru_speech.Ipc.Service.{Sends, unsubscribe}
use yoru_speech.App.Program.{Program, on_line}
use yoru_speech.App.Program.Steps.{Action, polled, ticked, captured, notified, worked, step}

-- What write answers for a line to a client.
abbrev pub Writes : Type 0
Writes = ClientId → Text → List WriteResult

-- The server and the rest of the program; `none` is undefined behaviour.
pub record Host (Sample : Type 0) : Type 0 where
  pub server : Server
  pub program : Option (Program Sample)

-- What is not a callback of poll_once: poll_completed and tick of the run loop, and what the audio
-- thread and the worker do.
pub data Own (Sample : Type 0) : Type 0 where
  completes : (Queue Sample → Queue Sample) → Own Sample
  ticks : ℕ → List Sample → Own Sample
  captures : List Sample → Own Sample
  notifies : Notification → Own Sample
  works : (Queue Sample → Queue Sample) → Own Sample

unfoldable pub action_of : {Sample : Type 0} → Own Sample → Action Sample
action_of (completes between) = polled between
action_of (ticks now late) = ticked now late
action_of (captures buffer) = captured buffer
action_of (notifies n) = notified n
action_of (works change) = worked change

-- poll_once with what each line's command meets, the calls beside it, and the worker's activity
-- callback.
pub data Move (Sample : Type 0) : Type 0 where
  serves : Poll → (ClientId → Text → Surroundings) → Writes → Move Sample
  goes : Own Sample → Writes → Move Sample
  rings : Move Sample

-- The calls of send_line in turn: the clients that the server has given up on.
unfoldable pub send_lines : Writes → List ClientId → Sends → List ClientId → List ClientId
send_lines writes connected [] pending = pending
send_lines writes connected ((id, text) ∷ more) pending =
    send_lines writes connected more (send_line (writes id text) id text connected pending).0

module _ {Sample : Type 0} where
  -- A call has changed the program.
  unfoldable pub after_call :
      Writes
      → List ClientId
      → List ClientId
      → Program Sample
      → Option (Program Sample)
      → List ClientId × Option (Program Sample)
  unfolding send_lines
  after_call writes connected pending p none = (pending, none)
  after_call writes connected pending p (some p') =
      (send_lines writes connected (drop (length p.sends) p'.sends) pending, some p')

  unfoldable pub disconnect_callback :
      ClientId → List ClientId × Option (Program Sample) → List ClientId × Option (Program Sample)
  disconnect_callback id (pending, none) = (pending, none)
  disconnect_callback id (pending, some p) =
      if p.terminated
      then (pending, some p)
      else (pending, some (record p { subscribed = unsubscribe id p.subscribed }))

module _ (json : JsonLibrary) (toml : TomlLibrary) (local_time : Text) (copy : Text → Option Text)
    {Sample : Type 0} (floats : Floats Sample) (config : LiveConfig Sample)
    (backend : List Sample → TranscriptionRequest → TranscriptionResult) where
  unfoldable pub line_callback :
      (ClientId → Text → Surroundings)
      → Writes
      → List ClientId
      → ClientId
      → Text
      → List ClientId × Option (Program Sample)
      → List ClientId × Option (Program Sample)
  unfolding after_call
  line_callback out writes connected id text (pending, none) = (pending, none)
  line_callback out writes connected id text (pending, some p) =
      after_call writes connected pending p
        (if p.terminated then some p else on_line json toml local_time copy id text (out id text) p)

  unfoldable pub go : Own Sample → Writes → Server → Option (Program Sample) → Host Sample
  unfolding after_call action_of
  go own writes server none = record { server = server; program = none }
  go own writes server (some p) =
      let (pending, program) =
        after_call writes (client_ids server.read_buffers) server.pending_disconnects p
          (step json toml local_time copy floats config backend p (action_of own)) in
      record { server = record server { pending_disconnects = pending }; program = program }

  unfoldable pub move : Move Sample → Host Sample → Host Sample
  unfolding line_callback disconnect_callback go
  move (serves p out writes) h =
      let (server, program) =
        poll_once (line_callback out writes) disconnect_callback p h.server h.program in
      record { server = server; program = program }
  move (goes own writes) h = go own writes h.server h.program
  move rings h = record h { server = wake h.server }

  unfoldable pub loop : List (Move Sample) → Host Sample → Host Sample
  unfolding move
  loop [] h = h
  loop (m ∷ moves) h = loop moves (move m h)
