-- ===== src/Session/Manager/Dictation.antt =====
-- One dictation, from start_session to the queued job: session_manager.cpp with the recorder and the
-- queue.
use yoru_speech.Common.{
  ℕ, ◌≡◌, refl, ap, true, List, [], ◌∷◌, ◌++◌, none, some, Text, arith, flatten, length,
  length-append,
}
use yoru_speech.Core.Event.{
  SessionId, Event, recording_started, recording_finished, transcription_queued,
}
use yoru_speech.Audio.Device.{Hardware}
use yoru_speech.Audio.Recorder
use yoru_speech.Audio.Recording.{Recording}
use yoru_speech.Audio.Recorder.Capture.{capture, recording_of, start-capture-stop}
use yoru_speech.Session.Lifecycle.{ServiceState, Session, SessionState, try_transition}
use yoru_speech.Session.Lifecycle
use yoru_speech.Session.Queue.{
  Queue, TranscriptionJob, has_capacity, try_enqueue, outstanding_count, snapshot,
}
use yoru_speech.Session.Queue.Capacity.{accept_lem}
use yoru_speech.Session.Manager.{
  Manager, StopSessionResult, queued, start_session, stop_session, reported_state,
}

module _ {Sample : Type 0} where
  pub start_inv :
      (hw : Hardware) (now : ℕ) (m m₁ : Manager Sample) (events : List (Event Sample))
      → start_session hw now m ≡ (m₁, events, none)
      → (Recorder.start hw m.next_session_id m.recorder ≡ (m₁.recorder, events, none))
        × (m₁.state ≡ ServiceState.recording)
        × (m₁.active_session
            ≡ some (record {
              id = m.next_session_id;
              state = SessionState.recording;
              created_at = now;
              finished_at = none;
            }))
  unfolding start_session try_transition Lifecycle.create
  start_inv hw now m m₁ events h = ground arith

  abbrev pub job_of : SessionId → List Sample → Manager Sample → TranscriptionJob Sample
  job_of id samples m = record {
    session_id = id;
    samples = samples;
    request = record { language = m.default_language; initial_prompt = m.transcription_prompt };
  }

  enqueue_pending :
      (job : TranscriptionJob Sample) (q : Queue Sample)
      → has_capacity q ≡ true
      → (try_enqueue job q).0.pending ≡ q.pending ++ job ∷ []
  unfolding has_capacity try_enqueue
  enqueue_pending job q h = ground arith

  -- stop_session where the recorder hands a recording over and the queue has room.
  pub stop_queues :
      (now : ℕ) (m : Manager Sample) (s : Session) (r : Recorder.Recorder Sample)
      (events : List (Event Sample)) (recording : Recording Sample)
      → m.state ≡ ServiceState.recording
      → m.active_session ≡ some s
      → Recorder.stop m.recorder ≡ (r, events, Recorder.recorded recording)
      → has_capacity m.queue ≡ true
      → stop_session now m
        ≡ some (
          record m {
            recorder = r;
            state = ServiceState.idle;
            active_session = none;
            queue = (try_enqueue (job_of s.id recording.samples m) m.queue).0;
          },
          events ++ transcription_queued s.id (outstanding_count m.queue) ∷ [],
          queued (record { session_id = s.id; position = outstanding_count m.queue }),
        )
  unfolding stop_session try_transition
  stop_queues now m s r events recording e f g h =
      let slot = accept_lem (job_of s.id recording.samples m) m.queue h in ground (arith, slot.0)

  pending_reports :
      (m : Manager Sample) (js : List (TranscriptionJob Sample)) (j : TranscriptionJob Sample)
      → m.state ≡ ServiceState.idle
      → m.queue.pending ≡ js ++ j ∷ []
      → reported_state m ≡ ServiceState.processing
  unfolding reported_state snapshot
  pending_reports m js j e p = ground (arith, length-append js (j ∷ []), ap length p)

  -- One whole dictation. After a start_session that succeeded, and whatever audio arrives, and
  -- whatever becomes of the queue `q` and of the configured language and prompt in the meantime, a
  -- stop_session that finds room in the queue succeeds: the start published recording_started under
  -- the next free id, the stop publishes recording_finished with all the audio in order and then
  -- transcription_queued; the job goes to the end of the queue with exactly that audio and the
  -- current language and prompt; its position counts the jobs outstanding before; no session is left
  -- active and the service reports Processing.
  pub dictation :
      (hw : Hardware) (now later : ℕ) (m m₁ : Manager Sample) (events : List (Event Sample))
      (bs : List (List Sample)) (q : Queue Sample) (language prompt : Text)
      → start_session hw now m ≡ (m₁, events, none)
      → has_capacity q ≡ true
      → let id = m.next_session_id in
        let m₂ = record m₁ {
          recorder = capture bs m₁.recorder;
          queue = q;
          default_language = language;
          transcription_prompt = prompt;
        } in
        (events ≡ recording_started id ∷ [])
        × ((r : Manager Sample × List (Event Sample) × StopSessionResult) × (stop_session later m₂
              ≡ some r)
            × (r.1
                ≡ recording_finished id (recording_of bs)
                  ∷ transcription_queued id (outstanding_count q)
                  ∷ [])
            × (r.2 ≡ queued (record { session_id = id; position = outstanding_count q }))
            × (r.0.queue.pending ≡ q.pending ++ job_of id (flatten bs) m₂ ∷ [])
            × (r.0.active_session ≡ none)
            × (r.0.recorder.active_session ≡ none)
            × (reported_state r.0 ≡ ServiceState.processing))
  dictation hw now later m m₁ events bs q language prompt h room =
      let id = m.next_session_id in
      let (started, st, active) = start_inv hw now m m₁ events h in
      let c = start-capture-stop hw id m.recorder m₁.recorder events bs 0 started in
      let m₂ = record m₁ {
        recorder = capture bs m₁.recorder;
        queue = q;
        default_language = language;
        transcription_prompt = prompt;
      } in
      let r = Recorder.stop m₂.recorder in
      let stopped =
        stop_queues later m₂ _ r.0 r.1 (recording_of bs) st active (ground (arith, c.3)) room in
      let p = enqueue_pending (job_of id (flatten bs) m₂) q room in
      (
        c.0,
        (
          _,
          stopped,
          ap (λ l. l ++ transcription_queued id (outstanding_count q) ∷ []) c.2,
          refl,
          p,
          refl,
          c.4,
          pending_reports _ q.pending (job_of id (flatten bs) m₂) refl p,
        ),
      )
