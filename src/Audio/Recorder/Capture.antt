-- ===== src/Audio/Recorder/Capture.antt =====
-- What a recording holds: recording_manager.cpp against the buffers that the device delivered.
use yoru_speech.Common.{
  ℕ, zero, suc, ◌≤◌, ◌≡◌, refl, ◌∙◌, true, List, [], ◌∷◌, ◌++◌, append-nil, append_assoc, none,
  some, arith, length, drop, flatten, lit,
}
use yoru_speech.Core.Event.{SessionId, Event, recording_started, recording_finished}
use yoru_speech.Audio.Recording.{Recording, sample_rate_hz, channel_count}
use yoru_speech.Audio.Device.{Hardware}
use yoru_speech.Audio.Device
use yoru_speech.Audio.Recorder.{
  Recorder, recorded, recording_error, create, on_samples, start, stop, samples_snapshot,
}

module _ {Sample : Type 0} where
  -- The buffers that arrive while a recording is in progress, in order.
  unfoldable pub capture : List (List Sample) → Recorder Sample → Recorder Sample
  capture [] r = r
  capture (b ∷ bs) r = capture bs (on_samples b r)

  capture_lem :
      (bs : List (List Sample)) (r : Recorder Sample)
      → capture bs r ≡ record r { samples = r.samples ++ flatten bs }
  unfolding capture on_samples
  capture_lem [] r = ground (arith, append-nil r.samples)
  capture_lem (b ∷ bs) r =
      capture_lem bs (on_samples b r) ∙ ground (arith, append_assoc r.samples b (flatten bs))

  -- The whole recording that the buffers make up.
  abbrev pub recording_of : List (List Sample) → Recording Sample
  recording_of bs = record {
    samples = flatten bs;
    sample_rate = sample_rate_hz;
    channels = channel_count;
  }

  drop_all : (n : ℕ) (xs : List Sample) → length xs ≤ n → drop n xs ≡ []
  drop_all zero [] h = refl
  drop_all zero (x ∷ xs) h = absurd (omega arith)
  drop_all (suc n) [] h = refl
  drop_all (suc n) (x ∷ xs) h = drop_all n xs (omega arith)

  snapshot_lem : (i : ℕ) (r : Recorder Sample) → samples_snapshot i r ≡ drop i r.samples
  unfolding samples_snapshot
  snapshot_lem i r = ground (arith, drop_all i r.samples)

  start_lem :
      (hw : Hardware) (id : SessionId) (r r' : Recorder Sample) (evs : List (Event Sample))
      → start hw id r ≡ (r', evs, none)
      → (evs ≡ recording_started id ∷ [])
        × (r'.samples ≡ [])
        × (r'.active_session ≡ some id)
        × (r'.device.running ≡ true)
  unfolding start Device.start
  start_lem hw id r r' evs h = ground arith

  -- After a start that succeeded, and whatever buffers the device delivers next: the start published
  -- exactly recording_started for its session; a snapshot from any index is the audio delivered from
  -- there on; and stop returns and publishes exactly the buffers joined in order as a mono 16 kHz
  -- recording, and leaves no recording in progress and no samples behind.
  pub start-capture-stop :
      (hw : Hardware) (id : SessionId) (r r' : Recorder Sample) (evs : List (Event Sample))
      (bs : List (List Sample)) (i : ℕ)
      → start hw id r ≡ (r', evs, none)
      → let r'' = capture bs r' in
        (evs ≡ recording_started id ∷ [])
        × (samples_snapshot i r'' ≡ drop i (flatten bs))
        × ((stop r'').1 ≡ recording_finished id (recording_of bs) ∷ [])
        × ((stop r'').2 ≡ recorded (recording_of bs))
        × ((stop r'').0.active_session ≡ none)
        × ((stop r'').0.samples ≡ [])
  unfolding stop
  start-capture-stop hw id r r' evs bs i h =
      let p = start_lem hw id r r' evs h in
      ground (arith, capture_lem bs r', snapshot_lem i (capture bs r'))

  -- A device that stopped by itself, say an unplugged microphone: stop reports the loss, publishes
  -- nothing, and leaves no recording in progress, no samples and a released device, so that the next
  -- start finds the manager as it is when new.
  pub stop_lost :
      (id : SessionId) (r : Recorder Sample)
      → r.active_session ≡ some id
      → r.device.has_callback ≡ true
      → let r' = record r { device = Device.notify Device.Notification.stopped r.device } in
        ((stop r').0 ≡ create)
        × ((stop r').1 ≡ [])
        × ((stop r').2
            ≡ recording_error
                (lit "capture device stopped unexpectedly (microphone disconnected?)"))
  unfolding stop create Device.notify Device.stop Device.create
  stop_lost id r h k = ground arith
