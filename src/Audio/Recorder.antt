-- ===== src/Audio/Recorder.antt =====
-- domains/audio/recording_manager.hpp and recording_manager.cpp. An operation returns the new
-- manager, the events that it publishes in order, and its result.
pub mod Capture
use yoru_speech.Common.{
  ℕ, leb, Bool, true, false, not, List, [], ◌∷◌, ◌++◌, Option, none, some, Text, lit, has_value,
  length, drop, if◌then◌else◌,
}
use yoru_speech.Core.Event.{SessionId, Event, recording_started, recording_finished}
use yoru_speech.Audio.Recording.{Recording, sample_rate_hz, channel_count}
use yoru_speech.Audio.Device.{Device, Hardware}
use yoru_speech.Audio.Device

pub record Recorder (Sample : Type 0) : Type 0 where
  pub device : Device
  pub samples : List Sample
  pub active_session : Option SessionId

-- RecordingResult; a RecordingError is its message.
pub data RecordingResult (Sample : Type 0) : Type 0 where
  recorded : Recording Sample → RecordingResult Sample
  recording_error : Text → RecordingResult Sample

module _ {Sample : Type 0} where
  unfoldable pub create : Recorder Sample
  create = record { device = Device.create; samples = []; active_session = none }

  -- A captured buffer arrives on the audio thread.
  unfoldable pub on_samples : List Sample → Recorder Sample → Recorder Sample
  on_samples buffer r = record r { samples = r.samples ++ buffer }

  finish_start :
      SessionId
      → Recorder Sample
      → Option Text
      → Recorder Sample × List (Event Sample) × Option Text
  finish_start id r (some message) = (r, [], some message)
  finish_start id r none = (record r { active_session = some id }, recording_started id ∷ [], none)

  unfoldable pub start :
      Hardware → SessionId → Recorder Sample → Recorder Sample × List (Event Sample) × Option Text
  unfolding finish_start
  start hw id r =
      if has_value r.active_session
      then (r, [], some (lit "a recording is already in progress"))
      else (let (device, calls, error) = Device.start hw r.device in
          finish_start id (record r { samples = []; device = device }) error)

  stop_active :
      SessionId → Recorder Sample → Recorder Sample × List (Event Sample) × RecordingResult Sample
  stop_active id r =
      let (device, calls) = Device.stop r.device in
      let after = record r { device = device; samples = []; active_session = none } in
      if not r.device.running
      then (
        after,
        [],
        recording_error (lit "capture device stopped unexpectedly (microphone disconnected?)"),
      )
      else (let recording : Recording Sample = record {
        samples = r.samples;
        sample_rate = sample_rate_hz;
        channels = channel_count;
      } in
          (after, recording_finished id recording ∷ [], recorded recording))

  unfoldable pub stop :
      Recorder Sample → Recorder Sample × List (Event Sample) × RecordingResult Sample
  unfolding stop_active
  stop r = elim r.active_session [
    | none ↦ (r, [], recording_error (lit "no recording is in progress"))
    | some id ↦ stop_active id r
  ]

  unfoldable pub is_recording : Recorder Sample → Bool
  is_recording r = has_value r.active_session

  unfoldable pub samples_snapshot : ℕ → Recorder Sample → List Sample
  samples_snapshot start_index r =
      if leb (length r.samples) start_index then [] else drop start_index r.samples
