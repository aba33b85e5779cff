-- ===== src/Session/Manager/Failure.antt =====
-- The ways in which stop_session of session_manager.cpp fails, and the way back to Idle.
use yoru_speech.Common.{
  ℕ, ◌≡◌, refl, ap, ◌⊎◌, inl, inr, Bool-cases, true, false, List, [], ◌∷◌, ◌++◌, none, some, Text,
  arith, lit,
}
use yoru_speech.Core.Event.{SessionId, Event, recording_finished, error_occurred, session_cancelled}
use yoru_speech.Audio.Recorder
use yoru_speech.Audio.Recording.{sample_rate_hz, channel_count}
use yoru_speech.Session.Lifecycle.{ServiceState, Session, SessionState, try_transition}
use yoru_speech.Session.Manager.Dictation.{job_of}
use yoru_speech.Session.Queue.{Queue, TranscriptionJob, has_capacity, try_enqueue}
use yoru_speech.Session.Manager.{
  Manager, StopSessionResult, session_error, stop_session, cancel_session,
}

abbrev failed_at : ℕ → Session → Session
failed_at now s = record s { state = SessionState.failed; finished_at = some now }

module _ {Sample : Type 0} where
  -- The recording is lost: the device is gone, or the queue takes no job any more (it was shut down).
  abbrev pub LosesRecording : Manager Sample → Type 0
  LosesRecording m = (m.recorder.device.running ≡ false) ⊎ (has_capacity m.queue ≡ false)

  full_lem :
      (job : TranscriptionJob Sample) (q : Queue Sample)
      → has_capacity q ≡ false
      → try_enqueue job q ≡ (q, none)
  unfolding has_capacity try_enqueue
  full_lem job q h = ground arith

  abbrev failing : ℕ → Session → Manager Sample → Manager Sample
  failing now s m = record m {
    recorder = (Recorder.stop m.recorder).0;
    state = ServiceState.error;
    active_session = some (failed_at now s);
  }

  module _ (now : ℕ) (m : Manager Sample) (s : Session) (e : m.state ≡ ServiceState.recording)
      (f : m.active_session ≡ some s) (g : s.state ≡ SessionState.recording)
      (k : m.recorder.active_session ≡ some s.id) where
    device_lost :
        m.recorder.device.running ≡ false
        → stop_session now m
          ≡ some (
            failing now s m,
            error_occurred
                  (some s.id)
                  (lit "audio")
                  (lit "capture device stopped unexpectedly (microphone disconnected?)")
                ∷ [],
            session_error (lit "capture device stopped unexpectedly (microphone disconnected?)"),
          )
    unfolding stop_session Recorder.stop try_transition
    device_lost gone = ground arith

    room_lost :
        m.recorder.device.running ≡ true
        → has_capacity m.queue ≡ false
        → stop_session now m
          ≡ some (
            failing now s m,
            recording_finished s.id (record {
              samples = m.recorder.samples;
              sample_rate = sample_rate_hz;
              channels = channel_count;
            })
                ∷ error_occurred
                    (some s.id)
                    (lit "queue")
                    (lit "transcription queue is full or shutting down")
                ∷ [],
            session_error (lit "transcription queue is full or shutting down"),
          )
    unfolding stop_session Recorder.stop try_transition
    room_lost runs full = ground (arith, full_lem (job_of s.id m.recorder.samples m) m.queue full)

  stop_ends :
      (r : Recorder.Recorder Sample) (id : SessionId)
      → r.active_session ≡ some id
      → (Recorder.stop r).0.active_session ≡ none
  unfolding Recorder.stop
  stop_ends r id k = ground arith

  cancel_error :
      (now : ℕ) (m : Manager Sample) (s : Session)
      → m.state ≡ ServiceState.error
      → m.active_session ≡ some s
      → cancel_session now m ≡ (
        record m { state = ServiceState.idle; active_session = none },
        session_cancelled s.id ∷ [],
        none,
      )
  unfolding cancel_session
  cancel_error now m s e f = ground arith

  -- When the recording of a session is lost, stop_session returns an error and leaves the queue as it
  -- was; the service is in Error with the session failed at that time and no recording in progress, and the last event is error_occurred
  -- for it; cancel_session then publishes session_cancelled for it and returns to Idle with no
  -- session, from where a new one can start.
  pub stop_then_cancel :
      (now later : ℕ) (m : Manager Sample) (s : Session)
      → m.state ≡ ServiceState.recording
      → m.active_session ≡ some s
      → s.state ≡ SessionState.recording
      → m.recorder.active_session ≡ some s.id
      → LosesRecording m
      → (r : Manager Sample × List (Event Sample) × StopSessionResult) × (message : Text)
        × (component : Text) × (before : List (Event Sample)) × (stop_session now m ≡ some r)
        × (r.2 ≡ session_error message)
        × (r.1 ≡ before ++ error_occurred (some s.id) component message ∷ [])
        × (r.0.state ≡ ServiceState.error)
        × (r.0.queue ≡ m.queue)
        × (r.0.active_session
            ≡ some (record s { state = SessionState.failed; finished_at = some now }))
        × (r.0.recorder.active_session ≡ none)
        × ((cancel_session later r.0).1 ≡ session_cancelled s.id ∷ [])
        × ((cancel_session later r.0).2 ≡ none)
        × ((cancel_session later r.0).0.state ≡ ServiceState.idle)
        × ((cancel_session later r.0).0.active_session ≡ none)
  stop_then_cancel now later m s e f g k lost = elim (Bool-cases m.recorder.device.running) [
    | inr gone ↦
        let c = cancel_error later (failing now s m) (failed_at now s) refl refl in
        (
          _,
          _,
          _,
          [],
          device_lost now m s e f g k gone,
          refl,
          refl,
          refl,
          refl,
          refl,
          stop_ends m.recorder s.id k,
          ap (λ r. r.1) c,
          ap (λ r. r.2) c,
          ap (λ r. r.0.state) c,
          ap (λ r. r.0.active_session) c,
        )
    | inl runs ↦
        let full : has_capacity m.queue ≡ false = ground arith in
        let c = cancel_error later (failing now s m) (failed_at now s) refl refl in
        (
          _,
          _,
          _,
          recording_finished s.id _ ∷ [],
          room_lost now m s e f g k runs full,
          refl,
          refl,
          refl,
          refl,
          refl,
          stop_ends m.recorder s.id k,
          ap (λ r. r.1) c,
          ap (λ r. r.2) c,
          ap (λ r. r.0.state) c,
          ap (λ r. r.0.active_session) c,
        )
  ]
