-- ===== src/App/Program.antt =====
-- app/main.cpp: the components on one event bus, and the turns of the run loop. The bus is that of
-- Core/Bus with the handlers that main and the constructors subscribe, in their order; a handler that
-- publishes does so in the middle of the dispatch. Nothing catches the exception of an encoder: it
-- ends the process by std::terminate, and what would come after it does not happen. `local_time` is the
-- rendered time of the log lines and `copy` the clipboard adapter, whose calls return.
pub mod Delivery
pub mod Steps
pub mod Same
pub mod Agreement
pub mod Sending
pub mod Closing
pub mod Excuses
pub mod Results
pub mod Stages
pub mod Dictation
use yoru_speech.Common.{
  ℕ, Bool, true, false, if◌then◌else◌, List, [], ◌∷◌, ◌++◌, Option, none, some, Text, lit,
}
use yoru_speech.Core.Event.{
  SessionId, Event, recording_started, recording_finished, transcription_queued,
  transcription_started, transcription_completed, transcription_partial, model_loaded,
  configuration_changed, error_occurred, session_cancelled,
}
use yoru_speech.Core.Bus.{TypeIndex, Bus, World, Outcome, returned, thrown, publish}
use yoru_speech.Core.Bus.Order.{subscribe_all}
use yoru_speech.Core.Logger.{Journal, new_journal}
use yoru_speech.Config.Configuration.{Configuration}
use yoru_speech.Config.Toml.{TomlLibrary}
use yoru_speech.Config.Store.{current}
use yoru_speech.Config.Store
use yoru_speech.Clipboard.Auto.{AutoClipboard}
use yoru_speech.Clipboard.Auto
use yoru_speech.Speech.Transcript.{TranscriptionRequest, TranscriptionResult}
use yoru_speech.Audio.Device.{Notification}
use yoru_speech.Audio.Device
use yoru_speech.Audio.Recorder
use yoru_speech.Session.Queue.{Queue}
use yoru_speech.Session.Silence.{Floats}
use yoru_speech.Session.Manager.{Manager, poll_completed}
use yoru_speech.Session.Manager
use yoru_speech.Session.Live.{Live, LiveConfig, reset, tick}
use yoru_speech.Session.Live
use yoru_speech.Ipc.Codec.{JsonLibrary, parse_message, encode_ack}
use yoru_speech.Ipc.Dispatcher.{Daemon, Surroundings, Result, handle_line}
use yoru_speech.Ipc.Server.{ClientId}
use yoru_speech.Ipc.Service.{
  Sends, Sent, send_reply, Request, subscribe_events, unsubscribe_events, command, request_of,
  subscribe, unsubscribe, broadcast,
}
use yoru_speech.App.Journal.{log_event}

-- std::type_index of the event types.
unfoldable pub type_of : {Sample : Type 0} → Event Sample → TypeIndex
type_of (recording_started id) = 0
type_of (recording_finished id recording) = 1
type_of (transcription_queued id position) = 2
type_of (transcription_started id) = 3
type_of (transcription_completed id transcript) = 4
type_of (transcription_partial id committed tail) = 5
type_of (model_loaded model) = 6
type_of (session_cancelled id) = 7
type_of (configuration_changed configuration) = 8
type_of (error_occurred id component message) = 9

-- One for each lambda that is subscribed; those of log_domain_events and those of the event bridge
-- do the same for each type.
pub data Handler : Type 0 where
  logs : Handler
  session_manager_configured : Handler
  live_transcriber_reset live_transcriber_configured : Handler
  clipboard_completed clipboard_configured : Handler
  bridges : Handler

-- The subscriptions of main, in order: its own, those of log_domain_events, and those of the
-- constructors.
unfoldable pub wiring : List (TypeIndex × Handler)
wiring =
    (9, logs)
    ∷ (0, logs)
    ∷ (1, logs)
    ∷ (2, logs)
    ∷ (3, logs)
    ∷ (4, logs)
    ∷ (5, logs)
    ∷ (6, logs)
    ∷ (7, logs)
    ∷ (8, logs)
    ∷ (8, session_manager_configured)
    ∷ (0, live_transcriber_reset)
    ∷ (8, live_transcriber_configured)
    ∷ (4, clipboard_completed)
    ∷ (8, clipboard_configured)
    ∷ (0, bridges)
    ∷ (1, bridges)
    ∷ (2, bridges)
    ∷ (3, bridges)
    ∷ (4, bridges)
    ∷ (5, bridges)
    ∷ (6, bridges)
    ∷ (8, bridges)
    ∷ (9, bridges)
    ∷ (7, bridges)
    ∷ []

-- The components, the calls of send_line so far, and whether an exception has ended the process.
pub record Program (Sample : Type 0) : Type 0 where
  pub daemon : Daemon Sample
  pub live : Live
  pub clipboard : AutoClipboard
  pub subscribed : List ClientId
  pub journal : Journal
  pub sends : Sends
  pub terminated : Bool

-- What main has built when the run loop starts, over a loaded configuration manager.
unfoldable pub create : {Sample : Type 0} → Store.Manager → ℕ → Program Sample
create configurations queue_capacity = record {
  daemon = record {
    sessions = Manager.create (current configurations) queue_capacity;
    configurations = configurations;
  };
  live = Live.create (current configurations);
  clipboard = Auto.create (current configurations);
  subscribed = [];
  journal = new_journal;
  sends = [];
  terminated = false;
}

-- The lines are sent, and an exception may follow them.
unfoldable pub sending : {Sample : Type 0} → Sent → Program Sample → Program Sample
sending (lines, ended) p = record p { sends = p.sends ++ lines; terminated = ended }

module _ (json : JsonLibrary) (toml : TomlLibrary) (local_time : Text) (copy : Text → Option Text)
    {Sample : Type 0} where
  -- The handlers that publish nothing; std::any_cast lets each see events of its own type only.
  react : Handler → Event Sample → Program Sample → Program Sample
  unfolding sending
  react logs event p = record p { journal = log_event local_time event p.journal }
  react bridges event p = sending (broadcast json toml p.subscribed event) p
  react live_transcriber_reset event p = record p { live = reset p.live }
  react session_manager_configured (configuration_changed c) p = record p {
    daemon = record p.daemon { sessions = Manager.configuration_changed c p.daemon.sessions };
  }
  react live_transcriber_configured (configuration_changed c) p = record p {
    live = Live.configuration_changed c p.live;
  }
  react clipboard_configured (configuration_changed c) p = record p {
    clipboard = Auto.configuration_changed c p.clipboard;
  }
  react handler event p = p

  call_leaf :
      Handler → Event Sample → World Handler (Program Sample) → Outcome Handler (Program Sample)
  unfolding react
  call_leaf handler event w =
      let p = react handler event w.state in
      if p.terminated then thrown (record w { state = p }) else returned (record w { state = p })

  -- The events that a handler publishes; their handlers publish nothing.
  publish_nested :
      List (Event Sample) → World Handler (Program Sample) → Outcome Handler (Program Sample)
  unfolding call_leaf
  publish_nested [] w = returned w
  publish_nested (event ∷ events) w = elim (publish call_leaf type_of event w) [
    | returned w' ↦ publish_nested events w'
    | thrown w' ↦ thrown w'
  ]

  call : Handler → Event Sample → World Handler (Program Sample) → Outcome Handler (Program Sample)
  unfolding publish_nested
  call clipboard_completed (transcription_completed id transcript) w =
      publish_nested (Auto.transcription_completed copy id transcript w.state.clipboard) w
  call handler event w = call_leaf handler event w

  state_of : Outcome Handler (Program Sample) → Program Sample
  state_of (returned w) = w.state
  state_of (thrown w) = w.state

  unfoldable pub publish_event : Event Sample → Program Sample → Program Sample
  unfolding call state_of
  publish_event event p =
      if p.terminated
      then p
      else state_of
          (publish call type_of event (record { bus = subscribe_all wiring []; state = p }))

  unfoldable pub publish_events : List (Event Sample) → Program Sample → Program Sample
  publish_events [] p = p
  publish_events (event ∷ events) p = publish_events events (publish_event event p)

  -- The on_line callback of the IPC service.
  reply : ClientId → Option Text → Program Sample → Program Sample
  unfolding sending
  reply id line p = if p.terminated then p else sending (send_reply id line) p

  answered : ClientId → Program Sample → Result Sample → Option (Program Sample)
  unfolding reply
  answered id p none = none
  answered id p (some (daemon, events, line)) =
      some (reply id line (publish_events events (record p { daemon = daemon })))

  serve : Request → ClientId → Text → Surroundings → Program Sample → Option (Program Sample)
  unfolding answered reply
  serve subscribe_events id line out p = some (
      reply id (encode_ack json (lit "subscribe_events"))
        (record p { subscribed = subscribe id p.subscribed }))
  serve unsubscribe_events id line out p = some (
      reply id (encode_ack json (lit "unsubscribe_events"))
        (record p { subscribed = unsubscribe id p.subscribed }))
  serve command id line out p = answered id p (handle_line json toml line out p.daemon)

  unfoldable pub on_line : ClientId → Text → Surroundings → Program Sample → Option (Program Sample)
  unfolding serve
  on_line id line out p = serve (request_of (parse_message json line)) id line out p

  -- session_manager.poll_completed() of the run loop.
  unfoldable pub poll : (Queue Sample → Queue Sample) → Program Sample → Program Sample
  poll between p =
      let (sessions, events, n) = poll_completed between p.daemon.sessions in
      publish_events events (record p { daemon = record p.daemon { sessions = sessions } })

  module _ (floats : Floats Sample) (config : LiveConfig Sample)
      (backend : List Sample → TranscriptionRequest → TranscriptionResult) where
    -- live_transcriber.tick() of the run loop.
    unfoldable pub tick_live : ℕ → List Sample → Program Sample → Program Sample
    tick_live now late p =
        let (live, events, window) = tick floats config backend now late p.daemon.sessions p.live in
        publish_events events (record p { live = live })
