-- ===== src/Audio/Examples.antt =====
-- Runs of the capture device and the recording manager.
use yoru_speech.Common.{ℕ, refl, none, ◌≡◌, true, false, List, [], ◌∷◌, some}
use yoru_speech.Core.Event.{recording_started, recording_finished}
use yoru_speech.Audio.Recorder.{Recorder}
use yoru_speech.Audio.Recorder
use yoru_speech.Audio.Recorder.Capture.{capture, recording_of, start-capture-stop}
use yoru_speech.Audio.Device.{Hardware, Notification}
use yoru_speech.Audio.Device
use yoru_speech.Audio.Device.Calls.{Action, starts, stops, notified, run, after_calls, run_protocol}

abbrev working : Hardware
working = record { opens = true; starts = true }

abbrev broken : Hardware
broken = record { opens = true; starts = false }

-- The microphone is unplugged, the next start fails, and the one after it works.
abbrev history : List Action
history =
    starts working ∷ notified Notification.stopped ∷ starts broken ∷ starts working ∷ stops ∷ []

run_protocol_example :
    after_calls false (run Device.create history).1 ≡ some (run Device.create history).0.initialized
run_protocol_example = run_protocol history

-- Two buffers arrive, and the snapshot is taken from the second sample on.
abbrev recorder : Recorder ℕ
recorder = (Recorder.start working 7 Recorder.create).0

start-capture-stop_example :
    let r = capture ((1 ∷ 2 ∷ []) ∷ (3 ∷ []) ∷ []) recorder in
    ((Recorder.start {Sample = ℕ} working 7 Recorder.create).1 ≡ recording_started 7 ∷ [])
    × (Recorder.samples_snapshot 1 r ≡ 2 ∷ 3 ∷ [])
    × ((Recorder.stop r).1
        ≡ recording_finished 7 (recording_of ((1 ∷ 2 ∷ []) ∷ (3 ∷ []) ∷ [])) ∷ [])
    × ((Recorder.stop r).2 ≡ Recorder.recorded (recording_of ((1 ∷ 2 ∷ []) ∷ (3 ∷ []) ∷ [])))
    × ((Recorder.stop r).0.active_session ≡ none)
    × ((Recorder.stop r).0.samples ≡ [])
unfolding Recorder.start Recorder.create Device.start Device.create
start-capture-stop_example =
    start-capture-stop working 7 Recorder.create recorder
      (Recorder.start {Sample = ℕ} working 7 Recorder.create).1 ((1 ∷ 2 ∷ []) ∷ (3 ∷ []) ∷ []) 1
      refl
