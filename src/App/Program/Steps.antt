-- ===== src/App/Program/Steps.antt =====
-- The daemon while the run loop of app/main.cpp runs: the lines that clients send, the two other calls
-- of a turn, and what the audio thread and the worker thread do meanwhile, in any order.
use yoru_speech.Common.{ℕ, List, [], ◌∷◌, if◌then◌else◌, Option, none, some, Text}
use yoru_speech.Config.Toml.{TomlLibrary}
use yoru_speech.Speech.Transcript.{TranscriptionRequest, TranscriptionResult}
use yoru_speech.Audio.Device.{Notification}
use yoru_speech.Audio.Device
use yoru_speech.Audio.Recorder
use yoru_speech.Session.Queue.{Queue}
use yoru_speech.Session.Silence.{Floats}
use yoru_speech.Session.Manager.{Manager}
use yoru_speech.Session.Live.{LiveConfig}
use yoru_speech.Ipc.Codec.{JsonLibrary}
use yoru_speech.Ipc.Dispatcher.{Surroundings}
use yoru_speech.Ipc.Server.{ClientId}
use yoru_speech.Ipc.Service.{unsubscribe}
use yoru_speech.App.Program.{Program, on_line, poll, tick_live}

pub data Action (Sample : Type 0) : Type 0 where
  -- The callbacks of poll_once.
  line : ClientId → Text → Surroundings → Action Sample
  disconnected : ClientId → Action Sample
  -- poll_completed and tick.
  polled : (Queue Sample → Queue Sample) → Action Sample
  ticked : ℕ → List Sample → Action Sample
  -- The audio thread and the worker.
  captured : List Sample → Action Sample
  notified : Notification → Action Sample
  worked : (Queue Sample → Queue Sample) → Action Sample

unfoldable pub with_sessions :
    {Sample : Type 0} → (Manager Sample → Manager Sample) → Program Sample → Program Sample
with_sessions change p = record p {
  daemon = record p.daemon { sessions = change p.daemon.sessions };
}

module _ (json : JsonLibrary) (toml : TomlLibrary) (local_time : Text) (copy : Text → Option Text)
    {Sample : Type 0} (floats : Floats Sample) (config : LiveConfig Sample)
    (backend : List Sample → TranscriptionRequest → TranscriptionResult) where
  unfoldable pub act : Program Sample → Action Sample → Option (Program Sample)
  unfolding with_sessions
  act p (line id text out) = on_line json toml local_time copy id text out p
  act p (disconnected id) = some (record p { subscribed = unsubscribe id p.subscribed })
  act p (polled between) = some (poll json toml local_time copy between p)
  act p (ticked now late) =
      some (tick_live json toml local_time copy floats config backend now late p)
  act p (captured buffer) =
      some (with_sessions (λ m. record m { recorder = Recorder.on_samples buffer m.recorder }) p)
  act p (notified n) = some (
      with_sessions
        (λ m. record m {
          recorder = record m.recorder { device = Device.notify n m.recorder.device };
        })
        p)
  act p (worked change) = some (with_sessions (λ m. record m { queue = change m.queue }) p)

  -- `none` is undefined behaviour in the source. Nothing happens in a process that has ended.
  unfoldable pub step : Program Sample → Action Sample → Option (Program Sample)
  unfolding act
  step p action = if p.terminated then some p else act p action

  unfoldable pub run : Program Sample → List (Action Sample) → Option (Program Sample)
  run p [] = some p
  run p (action ∷ actions) = elim (step p action) [ none ↦ none | some p' ↦ run p' actions ]
