-- ===== src/App/Program/Delivery.antt =====
-- What becomes of an event that app/main.cpp's bus delivers.
use yoru_speech.Common.{
  ◌≡◌, refl, Bool-cases, inl, inr, List, [], ◌∷◌, Option, Option-cases, Text, arith, true, false,
  if◌then◌else◌,
}
use yoru_speech.Core.Event.{
  Event, recording_started, recording_finished, transcription_queued, transcription_started,
  transcription_completed, transcription_partial, model_loaded, configuration_changed,
  error_occurred, session_cancelled,
}
use yoru_speech.Core.Bus.{publish, find, subscribe, call_all}
use yoru_speech.Core.Bus.Order.{subscribe_all}
use yoru_speech.Config.Toml.{TomlLibrary}
use yoru_speech.Clipboard.Auto.{AutoClipboard}
use yoru_speech.Clipboard.Auto
use yoru_speech.Session.Manager
use yoru_speech.Session.Live.{Live, reset}
use yoru_speech.Session.Live
use yoru_speech.Ipc.Codec.{JsonLibrary}
use yoru_speech.Ipc.Service.{broadcast}
use yoru_speech.App.Journal.{log_event}
use yoru_speech.App.Program.{Program, sending, type_of, wiring, react, publish_event}

module _ (json : JsonLibrary) (toml : TomlLibrary) (local_time : Text) (copy : Text → Option Text)
    {Sample : Type 0} where
  -- What the components make of an event, without a bus: the session manager, the live transcriber
  -- and the clipboard.
  unfoldable pub informed : Event Sample → Program Sample → Program Sample
  informed (recording_started id) p = record p { live = reset p.live }
  informed (configuration_changed c) p = record p {
    daemon = record p.daemon { sessions = Manager.configuration_changed c p.daemon.sessions };
    live = Live.configuration_changed c p.live;
    clipboard = Auto.configuration_changed c p.clipboard;
  }
  informed event p = p

  -- The events that it makes the clipboard publish.
  unfoldable pub errors : Event Sample → Program Sample → List (Event Sample)
  errors (transcription_completed id t) p = Auto.transcription_completed copy id t p.clipboard
  errors event p = []

  unfoldable pub note : Event Sample → Program Sample → Program Sample
  note event p = record p { journal = log_event local_time event p.journal }

  unfoldable pub send_all : Event Sample → Program Sample → Program Sample
  send_all event p = sending (broadcast json toml p.subscribed event) p

  -- What is left to do, unless an exception has ended the process.
  unfoldable pub alive : (Program Sample → Program Sample) → Program Sample → Program Sample
  alive f p = if p.terminated then p else f p

  pub alive_keeps :
      (Q : Program Sample → Type 0) (f : Program Sample → Program Sample) (p : Program Sample)
      → Q p
      → Q (f p)
      → Q (alive f p)
  unfolding alive
  alive_keeps Q f p ended going = elim p.terminated as (λ t. Q (if t then p else f p)) [
    | true ↦ ended
    | false ↦ going
  ]

  pub alive_cases :
      (Q : Program Sample → Type 0) (f : Program Sample → Program Sample) (p : Program Sample)
      → (p.terminated ≡ true → Q p)
      → (p.terminated ≡ false → Q (f p))
      → Q (alive f p)
  unfolding alive
  alive_cases Q f p ended going =
      elim p.terminated as (λ t. p.terminated ≡ t → Q (if t then p else f p)) [
        | true ↦ ended
        | false ↦ going
      ]
        refl

  unfoldable pub report_all : List (Event Sample) → Program Sample → Program Sample
  unfolding note send_all alive
  report_all [] p = p
  report_all (event ∷ events) p = report_all events (alive (λ q. send_all event (note event q)) p)

  unfoldable pub delivered : Event Sample → Program Sample → Program Sample
  unfolding report_all informed errors note send_all alive
  delivered event p =
      alive
        (λ q.
          let q' = informed event (note event q) in
          alive (send_all event) (report_all (errors event q') q'))
        p

  -- Publishing on the bus with the subscriptions of main is the same as this, unless an exception has
  -- ended the process before: the event is logged, then the session manager, the live transcriber and
  -- the clipboard react to it, then each error that the clipboard publishes is logged and broadcast,
  -- then the event itself is broadcast; after the first broadcast whose encoder throws nothing more
  -- is done.
  pub publish_event_lem :
      (event : Event Sample) (p : Program Sample)
      → publish_event json toml local_time copy event p ≡ delivered event p
  unfolding delivered publish_event react publish find subscribe call_all subscribe_all wiring
      type_of Auto.transcription_completed
  publish_event_lem (recording_started id) p = ground arith
  publish_event_lem (recording_finished id recording) p = ground arith
  publish_event_lem (transcription_queued id position) p = ground arith
  publish_event_lem (transcription_started id) p = ground arith
  publish_event_lem (transcription_completed id t) p = elim (Bool-cases p.clipboard.enabled) [
    | inr off ↦ ground (arith, off)
    | inl on ↦ elim (Option-cases (copy t.text)) [
      | inl fine ↦ ground (arith, on, fine)
      | inr (message, e) ↦ ground (arith, on, e)
    ]
  ]
  publish_event_lem (transcription_partial id committed tail) p = ground arith
  publish_event_lem (model_loaded model) p = ground arith
  publish_event_lem (session_cancelled id) p = ground arith
  publish_event_lem (configuration_changed c) p = ground arith
  publish_event_lem (error_occurred id component message) p = ground arith
