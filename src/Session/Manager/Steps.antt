-- ===== src/Session/Manager/Steps.antt =====
-- A session manager in its surroundings: calls from the owner's thread, captured buffers and device
-- notifications from the audio thread, and the worker's changes of the queue, in any order.
use yoru_speech.Common.{ℕ, Bool, List, [], ◌∷◌, ◌++◌, Option, none, some}
use yoru_speech.Core.Event.{SessionId, Event}
use yoru_speech.Config.Configuration.{Configuration}
use yoru_speech.Audio.Device.{Hardware, Notification}
use yoru_speech.Audio.Device
use yoru_speech.Audio.Recorder
use yoru_speech.Session.Queue.{Queue}
use yoru_speech.Session.Manager.{
  Manager, StopSessionResult, configuration_changed, start_session, stop_session, poll_completed,
  cancel_session, cancel_job, shutdown, set_activity_callback,
}

pub data Action (Sample : Type 0) : Type 0 where
  start : Hardware → ℕ → Action Sample
  stop cancel : ℕ → Action Sample
  cancel_queued : SessionId → Action Sample
  poll : (Queue Sample → Queue Sample) → Action Sample
  shut : (Queue Sample → Queue Sample) → Action Sample
  callback : Bool → Action Sample
  configured : Configuration → Action Sample
  captured : List Sample → Action Sample
  notified : Notification → Action Sample
  worked : (Queue Sample → Queue Sample) → Action Sample

module _ {Sample : Type 0} where
  after_stop :
      Option (Manager Sample × List (Event Sample) × StopSessionResult)
      → Option (Manager Sample × List (Event Sample))
  after_stop none = none
  after_stop (some (m, events, result)) = some (m, events)

  -- `none` is undefined behaviour in the source.
  unfoldable pub step :
      Manager Sample → Action Sample → Option (Manager Sample × List (Event Sample))
  unfolding after_stop
  step m (start hw now) = let (m', events, error) = start_session hw now m in some (m', events)
  step m (stop now) = after_stop (stop_session now m)
  step m (cancel now) = let (m', events, error) = cancel_session now m in some (m', events)
  step m (cancel_queued id) = let (m', events, found) = cancel_job id m in some (m', events)
  step m (poll between) = let (m', events, n) = poll_completed between m in some (m', events)
  step m (shut rest) = let (m', events, dropped) = shutdown rest m in some (m', events)
  step m (callback given) = some (set_activity_callback given m, [])
  step m (configured c) = some (configuration_changed c m, [])
  step m (captured buffer) =
      some (record m { recorder = Recorder.on_samples buffer m.recorder }, [])
  step m (notified n) =
      some (
        record m { recorder = record m.recorder { device = Device.notify n m.recorder.device } },
        [],
      )
  step m (worked change) = some (record m { queue = change m.queue }, [])

  followed :
      List (Event Sample)
      → Option (Manager Sample × List (Event Sample))
      → Option (Manager Sample × List (Event Sample))
  followed events none = none
  followed events (some (m, later)) = some (m, events ++ later)

  -- A history, with all that it publishes.
  unfoldable pub run :
      Manager Sample → List (Action Sample) → Option (Manager Sample × List (Event Sample))
  unfolding followed
  run m [] = some (m, [])
  run m (a ∷ as') = elim (step m a) [
    | none ↦ none
    | some (m', events) ↦ followed events (run m' as')
  ]
