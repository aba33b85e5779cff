-- ===== src/Session/Manager/Examples.antt =====
-- Runs of the session manager.
use yoru_speech.Common.{
  ℕ, ◌≡◌, refl, inl, true, List, [], ◌∷◌, ◌++◌, none, some, Text, flatten, lit, length,
}
use yoru_speech.Core.Event.{
  Event, recording_started, recording_finished, transcription_queued, error_occurred,
  session_cancelled,
}
use yoru_speech.Config.Configuration.{default_configuration}
use yoru_speech.Speech.Transcript.{speech_error}
use yoru_speech.Audio.Device.{Hardware, Notification}
use yoru_speech.Audio.Device
use yoru_speech.Audio.Recorder
use yoru_speech.Audio.Recorder.Capture.{capture, recording_of}
use yoru_speech.Session.Lifecycle.{ServiceState, Session, SessionState, try_transition}
use yoru_speech.Session.Lifecycle
use yoru_speech.Session.Queue.{
  Queue, TranscriptionJob, TranscriptionJobResult, has_capacity, outstanding_count, snapshot,
  job_ids,
}
use yoru_speech.Session.Queue
use yoru_speech.Session.Manager.{
  Manager, StopSessionResult, queued, session_error, create, start_session, stop_session,
  cancel_session, poll_completed, reported_state,
}
use yoru_speech.Session.Manager.Steps.{Action, start, stop, cancel, captured, notified, step, run}
use yoru_speech.Session.Manager.Invariant.{IsCoherent, IsSafe, run-create-IsSafe}
use yoru_speech.Session.Manager.Dictation.{job_of, dictation}
use yoru_speech.Session.Manager.Failure.{stop_then_cancel}
use yoru_speech.Session.Manager.Reports.{
  poll_completed_lem, starts, outcomes, last_success, last_failure,
}

abbrev working : Hardware
working = record { opens = true; starts = true }

-- A dictation, then one whose microphone is unplugged.
abbrev history : List (Action ℕ)
history =
    start working 10
    ∷ captured (1 ∷ 2 ∷ [])
    ∷ stop 20
    ∷ start working 30
    ∷ notified Notification.stopped
    ∷ stop 40
    ∷ []

run-create-IsSafe_example :
    (r : Manager ℕ × List (Event ℕ)) × (run (create default_configuration 2) history ≡ some r)
    × IsCoherent r.0
    × IsSafe r.0 (step r.0 (cancel 50))
run-create-IsSafe_example = run-create-IsSafe default_configuration 2 history (cancel 50)

abbrev new : Manager ℕ
new = create default_configuration 2

abbrev recording : Manager ℕ
recording = (start_session working 10 new).0

abbrev buffers : List (List ℕ)
buffers = (1 ∷ 2 ∷ []) ∷ (3 ∷ []) ∷ []

abbrev recorded : Manager ℕ
recorded = record recording {
  recorder = capture buffers recording.recorder;
  queue = new.queue;
  default_language = lit "pt";
  transcription_prompt = [];
}

dictation_example :
    ((start_session working 10 new).1 ≡ recording_started 1 ∷ [])
    × ((r : Manager ℕ × List (Event ℕ) × StopSessionResult) × (stop_session 20 recorded ≡ some r)
        × (r.1
            ≡ recording_finished 1 (recording_of buffers)
              ∷ transcription_queued 1 (outstanding_count new.queue)
              ∷ [])
        × (r.2 ≡ queued (record { session_id = 1; position = outstanding_count new.queue }))
        × (r.0.queue.pending ≡ new.queue.pending ++ job_of 1 (flatten buffers) recorded ∷ [])
        × (r.0.active_session ≡ none)
        × (r.0.recorder.active_session ≡ none)
        × (reported_state r.0 ≡ ServiceState.processing))
unfolding create start_session has_capacity Queue.create Recorder.create Recorder.start
    Device.create Device.start
dictation_example =
    dictation working 10 20 new recording (recording_started 1 ∷ []) buffers new.queue (lit "pt") []
      refl refl

-- The device stopped while session 1 was recording.
abbrev unplugged : Manager ℕ
unplugged = record recording {
  recorder = record recording.recorder {
    device = Device.notify Notification.stopped recording.recorder.device;
  };
}

abbrev first : Session
first = record { id = 1; state = SessionState.recording; created_at = 10; finished_at = none }

stop_then_cancel_example :
    (r : Manager ℕ × List (Event ℕ) × StopSessionResult) × (message : Text) × (component : Text)
    × (before : List (Event ℕ)) × (stop_session 40 unplugged ≡ some r)
    × (r.2 ≡ session_error message)
    × (r.1 ≡ before ++ error_occurred (some 1) component message ∷ [])
    × (r.0.state ≡ ServiceState.error)
    × (r.0.queue ≡ unplugged.queue)
    × (r.0.active_session
        ≡ some (record first { state = SessionState.failed; finished_at = some 40 }))
    × (r.0.recorder.active_session ≡ none)
    × ((cancel_session 50 r.0).1 ≡ session_cancelled 1 ∷ [])
    × ((cancel_session 50 r.0).2 ≡ none)
    × ((cancel_session 50 r.0).0.state ≡ ServiceState.idle)
    × ((cancel_session 50 r.0).0.active_session ≡ none)
unfolding create start_session has_capacity try_transition Lifecycle.create Queue.create
    Recorder.create Recorder.start Device.create Device.start Device.notify
stop_then_cancel_example = stop_then_cancel 40 50 unplugged first refl refl refl refl (inl refl)

-- One job waits, one has failed.
abbrev waiting : Manager ℕ
waiting = record new {
  queue = record new.queue {
    pending = job_of 3 (1 ∷ []) new ∷ [];
    started = 2 ∷ [];
    completed = record { session_id = 2; result = speech_error (lit "no model loaded") } ∷ [];
  };
}

poll_completed_example : poll_completed (λ q. q) waiting ≡ (
  record waiting {
    queue = record waiting.queue { completed = []; started = [] };
    last_completed = last_success waiting.queue.completed waiting.last_completed;
    last_failed = last_failure waiting.queue.completed waiting.last_failed;
  },
  starts waiting.queue.started ++ outcomes waiting.queue.completed,
  length waiting.queue.completed,
)
poll_completed_example = poll_completed_lem (λ q. q) waiting
