-- ===== src/Session/Manager/Reports.antt =====
-- What the session manager reports: its state, its status and the outcomes of the queued jobs.
use yoru_speech.Common.{
  ◌<◌, ◌≡◌, refl, ap, ◌≢◌, ◌↔◌, ◌⊎◌, true, false, List, [], ◌∷◌, ◌++◌, Option, some, arith, length,
  lit,
}
use yoru_speech.Core.Event.{
  SessionId, Event, transcription_started, transcription_completed, error_occurred,
}
use yoru_speech.Speech.Transcript.{transcript, speech_error}
use yoru_speech.Session.Lifecycle.{ServiceState}
use yoru_speech.Session.Queue.{
  Queue, TranscriptionJobResult, drain_started, drain_completed, snapshot, outstanding_count,
  stop_accepting, job_ids, TranscriptionJob,
}
use yoru_speech.Session.Manager.{
  Manager, reported_state, status, transcription_busy, publish_result, publish_results,
  poll_completed, shutdown, started_events, dropped_events,
}

-- The last job that succeeded, and the last that failed, after some results.
abbrev pub last_success : List TranscriptionJobResult → Option SessionId → Option SessionId
last_success [] last = last
last_success (r ∷ rs) last =
    last_success rs
      (elim r.result [ transcript t ↦ some r.session_id | speech_error message ↦ last ])

abbrev pub last_failure : List TranscriptionJobResult → Option SessionId → Option SessionId
last_failure [] last = last
last_failure (r ∷ rs) last =
    last_failure rs
      (elim r.result [ transcript t ↦ last | speech_error message ↦ some r.session_id ])

module _ {Sample : Type 0} where
  -- The status carries the reported state. A manager that stores no Processing reports Processing
  -- exactly when capture is idle and the transcription is busy, which is when the status shows a job
  -- queued or being transcribed, and Idle exactly when capture is idle and the status shows none.
  pub status_lem :
      (m : Manager Sample)
      → m.state ≢ ServiceState.processing
      → ((status m).state ≡ reported_state m)
        × ((reported_state m ≡ ServiceState.processing)
            ↔ ((m.state ≡ ServiceState.idle) × (transcription_busy m ≡ true)))
        × ((transcription_busy m ≡ true)
            ↔ ((0 < (status m).queued) ⊎ ((status m).processing ≡ true)))
        × ((reported_state m ≡ ServiceState.idle) ↔ (
            (m.state ≡ ServiceState.idle)
            × ((status m).queued ≡ 0)
            × ((status m).processing ≡ false)))
  unfolding reported_state status transcription_busy snapshot outstanding_count
  status_lem m h = ground arith

  -- The event that a result is to be published as.
  abbrev pub outcome : TranscriptionJobResult → Event Sample
  outcome r = elim r.result [
    | transcript t ↦ transcription_completed r.session_id t
    | speech_error message ↦ error_occurred (some r.session_id) (lit "speech") message
  ]

  abbrev pub outcomes : List TranscriptionJobResult → List (Event Sample)
  outcomes [] = []
  outcomes (r ∷ rs) = outcome r ∷ outcomes rs

  abbrev pub starts : List SessionId → List (Event Sample)
  starts [] = []
  starts (id ∷ ids) = transcription_started id ∷ starts ids

  started_events_lem : (ids : List SessionId) → started_events ids ≡ starts ids
  unfolding started_events
  started_events_lem [] = refl
  started_events_lem (id ∷ ids) = ap (◌∷◌ (transcription_started id)) (started_events_lem ids)

  publish_results_lem :
      (rs : List TranscriptionJobResult) (m : Manager Sample)
      → ((publish_results rs m).0 ≡ record m {
        last_completed = last_success rs m.last_completed;
        last_failed = last_failure rs m.last_failed;
      })
        × ((publish_results rs m).1 ≡ outcomes rs)
  unfolding publish_results
  publish_results_lem [] m = (refl, refl)
  publish_results_lem (r ∷ rs) m = ground (arith, publish_results_lem rs (publish_result r m).0)

  -- poll_completed publishes a started notice for every job begun up to its second drain, in order,
  -- and then one outcome for every result that its first drain found, in order: completed with the
  -- transcript, or an error of component "speech" for that session. It returns the number of
  -- outcomes, empties both lists, and remembers the last success and the last failure; nothing else
  -- of the manager changes, so a failed transcription does not touch the capture state.
  pub poll_completed_lem :
      (between : Queue Sample → Queue Sample) (m : Manager Sample)
      → let results = m.queue.completed in
        let q = between (record m.queue { completed = [] }) in
        poll_completed between m ≡ (
          record m {
            queue = record q { started = [] };
            last_completed = last_success results m.last_completed;
            last_failed = last_failure results m.last_failed;
          },
          starts q.started ++ outcomes results,
          length results,
        )
  unfolding poll_completed drain_completed drain_started
  poll_completed_lem between m =
      let q = between (record m.queue { completed = [] }) in
      ground (
        arith,
        publish_results_lem m.queue.completed (record m { queue = record q { started = [] } }),
        started_events_lem q.started,
      )

  abbrev pub drop_notices : List (TranscriptionJob Sample) → List (Event Sample)
  drop_notices [] = []
  drop_notices (j ∷ js) =
      error_occurred (some j.session_id) (lit "queue")
        (lit "dropped at shutdown before it could be transcribed")
      ∷ drop_notices js

  dropped_events_lem :
      (js : List (TranscriptionJob Sample)) → dropped_events (job_ids js) ≡ drop_notices js
  unfolding dropped_events
  dropped_events_lem [] = refl
  dropped_events_lem (j ∷ js) = rw (dropped_events_lem js)

  -- shutdown reports every job that was waiting, in queue order and under its id, as an error of
  -- component "queue", returns the ids of exactly these, and changes nothing of the manager but the
  -- queue.
  pub shutdown_lem :
      (rest : Queue Sample → Queue Sample) (m : Manager Sample)
      → shutdown rest m ≡ (
        record m { queue = rest (record m.queue { stopping = true; pending = [] }) },
        drop_notices m.queue.pending,
        job_ids m.queue.pending,
      )
  unfolding shutdown stop_accepting
  shutdown_lem rest m = ground (arith, dropped_events_lem m.queue.pending)
