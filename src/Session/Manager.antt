-- ===== src/Session/Manager.antt =====
-- domains/session/session_manager.hpp, session_manager.cpp and session_status.hpp. A method returns
-- the new manager, the events that it publishes in order, and its result. Reading *active_session_
-- when it is empty is undefined in C++ and is the `none` of stop_session. `now` is the system clock.
pub mod Steps
pub mod Invariant
pub mod Dictation
pub mod Failure
pub mod Reports
pub mod Quiet
mod Examples
use yoru_speech.Common.{
  ℕ, ◌+◌, ◌%◌, ltb, u64_mod, Bool, true, false, not, ◌||◌, List, [], ◌∷◌, ◌++◌, Option, none, some,
  Text, lit, length, if◌then◌else◌,
}
use yoru_speech.Core.Event.{
  SessionId, Event, transcription_queued, transcription_started, transcription_completed,
  error_occurred, session_cancelled,
}
use yoru_speech.Config.Configuration.{Configuration}
use yoru_speech.Speech.Transcript.{transcript, speech_error}
use yoru_speech.Audio.Recording.{Recording}
use yoru_speech.Audio.Device.{Hardware}
use yoru_speech.Audio.Recorder.{Recorder, RecordingResult, recorded, recording_error}
use yoru_speech.Audio.Recorder
use yoru_speech.Session.Lifecycle.{ServiceState, Session, SessionState, try_transition}
use yoru_speech.Session.Lifecycle
use yoru_speech.Session.Queue.{
  Queue, QueueSnapshot, TranscriptionJobResult, has_capacity, try_enqueue, cancel_pending,
  drain_started, drain_completed, snapshot, outstanding_count, stop_accepting,
}
use yoru_speech.Session.Queue

pub record Manager (Sample : Type 0) : Type 0 where
  pub recorder : Recorder Sample
  pub state : ServiceState
  pub active_session : Option Session
  pub next_session_id : ℕ
  pub default_language : Text
  pub transcription_prompt : Text
  pub last_completed : Option SessionId
  pub last_failed : Option SessionId
  pub queue : Queue Sample

pub record QueuedJob : Type 0 where
  pub session_id : SessionId
  pub position : ℕ

-- StopSessionResult; a SessionError is its message.
pub data StopSessionResult : Type 0 where
  queued : QueuedJob → StopSessionResult
  session_error : Text → StopSessionResult

pub record SessionStatus : Type 0 where
  pub state : ServiceState
  pub queued : ℕ
  pub processing : Bool
  pub last_completed : Option SessionId
  pub last_failed : Option SessionId

abbrev pub is_idle : ServiceState → Bool
is_idle ServiceState.idle = true
is_idle _ = false

abbrev pub is_recording : ServiceState → Bool
is_recording ServiceState.recording = true
is_recording _ = false

derive_state : ServiceState → QueueSnapshot → ServiceState
derive_state capture queue =
    if not (is_idle capture)
    then capture
    else if queue.busy || ltb 0 queue.pending
    then ServiceState.processing
    else ServiceState.idle

module _ {Sample : Type 0} where
  unfoldable pub create : Configuration → ℕ → Manager Sample
  create configuration queue_capacity = record {
    recorder = Recorder.create;
    state = ServiceState.idle;
    active_session = none;
    next_session_id = 1;
    default_language = configuration.default_language;
    transcription_prompt = configuration.transcription_prompt;
    last_completed = none;
    last_failed = none;
    queue = Queue.create queue_capacity;
  }

  -- The handler of ConfigurationChanged that the constructor subscribes.
  unfoldable pub configuration_changed : Configuration → Manager Sample → Manager Sample
  configuration_changed configuration m = record m {
    default_language = configuration.default_language;
    transcription_prompt = configuration.transcription_prompt;
  }

  -- For the active session `s`.
  fail : Text → Text → ℕ → Session → Manager Sample → Manager Sample × List (Event Sample)
  fail component message now s m = (
    record m {
      active_session = some (try_transition s SessionState.failed now).0;
      state = ServiceState.error;
    },
    error_occurred (some s.id) component message ∷ [],
  )

  started :
      SessionId
      → ℕ
      → Manager Sample
      → Recorder Sample × List (Event Sample) × Option Text
      → Manager Sample × List (Event Sample) × Option Text
  started id now m (r, events, some message) = (
    record m { recorder = r },
    events ++ error_occurred none (lit "audio") message ∷ [],
    some message,
  )
  started id now m (r, events, none) = (
    record m {
      recorder = r;
      active_session = some (try_transition (Lifecycle.create id now) SessionState.recording now).0;
      state = ServiceState.recording;
    },
    events,
    none,
  )

  unfoldable pub start_session :
      Hardware → ℕ → Manager Sample → Manager Sample × List (Event Sample) × Option Text
  unfolding started
  start_session hw now m =
      if not (is_idle m.state)
      then (m, [], some (lit "a session is already active"))
      else if not (has_capacity m.queue)
      then (
        m,
        error_occurred none (lit "queue") (lit "transcription queue is full") ∷ [],
        some (lit "transcription queue is full"),
      )
      else started m.next_session_id now
          (record m { next_session_id = (m.next_session_id + 1) % u64_mod })
          (Recorder.start hw m.next_session_id m.recorder)

  enqueued :
      ℕ
      → Session
      → List (Event Sample)
      → Manager Sample
      → Queue Sample × Option ℕ
      → Manager Sample × List (Event Sample) × StopSessionResult
  unfolding fail
  enqueued now s events m (q, some position) = (
    record m { queue = q; active_session = none; state = ServiceState.idle },
    events ++ transcription_queued s.id position ∷ [],
    queued (record { session_id = s.id; position = position }),
  )
  enqueued now s events m (q, none) =
      let message = lit "transcription queue is full or shutting down" in
      let (m', failed) = fail (lit "queue") message now s (record m { queue = q }) in
      (m', events ++ failed, session_error message)

  stopped :
      ℕ
      → Session
      → Manager Sample
      → Recorder Sample × List (Event Sample) × RecordingResult Sample
      → Manager Sample × List (Event Sample) × StopSessionResult
  unfolding fail enqueued
  stopped now s m (r, events, recording_error message) =
      let (m', failed) = fail (lit "audio") message now s (record m { recorder = r }) in
      (m', events ++ failed, session_error message)
  stopped now s m (r, events, recorded recording) =
      let s' = (try_transition s SessionState.processing now).0 in
      enqueued now s' events (record m { recorder = r; active_session = some s' })
        (try_enqueue
          (record {
            session_id = s.id;
            samples = recording.samples;
            request = record {
              language = m.default_language;
              initial_prompt = m.transcription_prompt;
            };
          })
          m.queue)

  stop_active :
      ℕ
      → Option Session
      → Manager Sample
      → Option (Manager Sample × List (Event Sample) × StopSessionResult)
  unfolding stopped
  stop_active now none m = none
  stop_active now (some s) m = some (stopped now s m (Recorder.stop m.recorder))

  unfoldable pub stop_session :
      ℕ → Manager Sample → Option (Manager Sample × List (Event Sample) × StopSessionResult)
  unfolding stop_active
  stop_session now m =
      if not (is_recording m.state)
      then some (m, [], session_error (lit "no session is recording"))
      else stop_active now m.active_session m

  started_events : List SessionId → List (Event Sample)
  started_events [] = []
  started_events (id ∷ ids) = transcription_started id ∷ started_events ids

  -- One turn of the loop over the drained results.
  publish_result : TranscriptionJobResult → Manager Sample → Manager Sample × Event Sample
  publish_result job m = elim job.result [
    | speech_error message ↦ (
      record m { last_failed = some job.session_id },
      error_occurred (some job.session_id) (lit "speech") message,
    )
    | transcript t ↦ (
      record m { last_completed = some job.session_id },
      transcription_completed job.session_id t,
    )
  ]

  unfoldable pub publish_results :
      List TranscriptionJobResult → Manager Sample → Manager Sample × List (Event Sample)
  unfolding publish_result
  publish_results [] m = (m, [])
  publish_results (job ∷ jobs) m =
      let (m', event) = publish_result job m in
      let (m'', events) = publish_results jobs m' in (m'', event ∷ events)

  -- `between` is what the worker does to the queue between the two drains.
  unfoldable pub poll_completed :
      (Queue Sample → Queue Sample) → Manager Sample → Manager Sample × List (Event Sample) × ℕ
  unfolding started_events publish_results
  poll_completed between m =
      let (q, results) = drain_completed m.queue in
      let (q', ids) = drain_started (between q) in
      let (m', events) = publish_results results (record m { queue = q' }) in
      (m', started_events ids ++ events, length results)

  cancelled :
      ℕ
      → List (Event Sample)
      → Option Session
      → Manager Sample
      → Manager Sample × List (Event Sample) × Option Text
  cancelled now events none m = (record m { state = ServiceState.idle }, events, none)
  cancelled now events (some s) m = (
    record m { active_session = none; state = ServiceState.idle },
    events ++ session_cancelled s.id ∷ [],
    none,
  )

  -- The cancelled Session object is discarded, and its last transition with it.
  unfoldable pub cancel_session :
      ℕ → Manager Sample → Manager Sample × List (Event Sample) × Option Text
  unfolding cancelled
  cancel_session now m =
      if is_idle m.state
      then (m, [], some (lit "no session to cancel"))
      else if is_recording m.state
      then (let (r, events, result) = Recorder.stop m.recorder in
          cancelled now events m.active_session (record m { recorder = r }))
      else cancelled now [] m.active_session m

  unfoldable pub cancel_job :
      SessionId → Manager Sample → Manager Sample × List (Event Sample) × Bool
  cancel_job id m =
      let (q, removed) = cancel_pending id m.queue in
      if removed then (record m { queue = q }, session_cancelled id ∷ [], true) else (m, [], false)

  dropped_events : List SessionId → List (Event Sample)
  dropped_events [] = []
  dropped_events (id ∷ ids) =
      error_occurred (some id) (lit "queue")
        (lit "dropped at shutdown before it could be transcribed")
      ∷ dropped_events ids

  -- `rest` is what the worker does to the queue before join returns.
  unfoldable pub shutdown :
      (Queue Sample → Queue Sample)
      → Manager Sample
      → Manager Sample × List (Event Sample) × List SessionId
  unfolding dropped_events
  shutdown rest m =
      let (q, dropped) = stop_accepting m.queue in
      (record m { queue = rest q }, dropped_events dropped, dropped)

  unfoldable pub set_activity_callback : Bool → Manager Sample → Manager Sample
  set_activity_callback given m = record m { queue = Queue.set_activity_callback given m.queue }

  unfoldable pub reported_state : Manager Sample → ServiceState
  unfolding derive_state
  reported_state m = derive_state m.state (snapshot m.queue)

  unfoldable pub status : Manager Sample → SessionStatus
  unfolding derive_state
  status m =
      let q = snapshot m.queue in
      record {
        state = derive_state m.state q;
        queued = q.pending;
        processing = q.busy;
        last_completed = m.last_completed;
        last_failed = m.last_failed;
      }

  unfoldable pub transcription_busy : Manager Sample → Bool
  transcription_busy m = ltb 0 (outstanding_count m.queue)

  unfoldable pub active_session_id : Manager Sample → Option SessionId
  active_session_id m = elim m.active_session [ none ↦ none | some s ↦ some s.id ]
