-- ===== src/Session/Manager/Quiet.antt =====
-- The methods of session_manager.cpp publish no configuration: only the configuration manager does.
use yoru_speech.Common.{ℕ, ◌≡◌, refl, List, [], ◌∷◌, ◌++◌, some, arith}
use yoru_speech.Core.Event.{SessionId, Event, transcription_completed, configuration_changed}
use yoru_speech.Audio.Device.{Hardware}
use yoru_speech.Audio.Recorder.{Recorder, RecordingResult, recorded, recording_error}
use yoru_speech.Audio.Recorder
use yoru_speech.Session.Queue.{Queue, TranscriptionJobResult}
use yoru_speech.Session.Queue
use yoru_speech.Session.Manager.{
  Manager, StopSessionResult, start_session, stop_session, cancel_session, cancel_job,
  poll_completed, started_events, dropped_events, shutdown, publish_result, publish_results,
}

module _ {Sample : Type 0} where
  -- Not a ConfigurationChanged.
  abbrev pub IsQuiet : Event Sample → Type 0
  IsQuiet (configuration_changed c) = ⊥
  IsQuiet event = Unit

  abbrev pub AllQuiet : List (Event Sample) → Type 0
  AllQuiet [] = Unit
  AllQuiet (event ∷ events) = IsQuiet event × AllQuiet events

  pub start-AllQuiet :
      (hw : Hardware) (now : ℕ) (m : Manager Sample) → AllQuiet (start_session hw now m).1
  unfolding start_session Recorder.start
  start-AllQuiet hw now m = ground arith

  pub stop-AllQuiet :
      (now : ℕ) (m : Manager Sample) (r : Manager Sample × List (Event Sample) × StopSessionResult)
      → stop_session now m ≡ some r
      → AllQuiet r.1
  unfolding stop_session Recorder.stop
  stop-AllQuiet now m r e = ground arith

  pub cancel-AllQuiet : (now : ℕ) (m : Manager Sample) → AllQuiet (cancel_session now m).1
  unfolding cancel_session Recorder.stop
  cancel-AllQuiet now m = ground arith

  pub cancel_job-AllQuiet : (id : SessionId) (m : Manager Sample) → AllQuiet (cancel_job id m).1
  unfolding cancel_job
  cancel_job-AllQuiet id m = ground arith

  started-AllQuiet :
      (ids : List SessionId) (later : List (Event Sample))
      → AllQuiet later
      → AllQuiet (started_events ids ++ later)
  unfolding started_events
  started-AllQuiet [] later q = q
  started-AllQuiet (id ∷ ids) later q = (tt, started-AllQuiet ids later q)

  result-IsQuiet :
      (job : TranscriptionJobResult) (m : Manager Sample) → IsQuiet (publish_result job m).1
  unfolding publish_result
  result-IsQuiet job m = ground arith

  results-AllQuiet :
      (jobs : List TranscriptionJobResult) (m : Manager Sample)
      → AllQuiet (publish_results jobs m).1
  unfolding publish_results
  results-AllQuiet [] m = tt
  results-AllQuiet (job ∷ jobs) m =
      (result-IsQuiet job m, results-AllQuiet jobs (publish_result job m).0)

  pub poll-AllQuiet :
      (between : Queue Sample → Queue Sample) (m : Manager Sample)
      → AllQuiet (poll_completed between m).1
  unfolding poll_completed
  poll-AllQuiet between m =
      let (q, results) = Queue.drain_completed m.queue in
      let (q', ids) = Queue.drain_started (between q) in
      let m' : Manager Sample = record m { queue = q' } in
      started-AllQuiet ids (publish_results results m').1 (results-AllQuiet results m')

  results_settings :
      (jobs : List TranscriptionJobResult) (m : Manager Sample)
      → ((publish_results jobs m).0.default_language ≡ m.default_language)
        × ((publish_results jobs m).0.transcription_prompt ≡ m.transcription_prompt)
  unfolding publish_results publish_result
  results_settings [] m = (refl, refl)
  results_settings (job ∷ jobs) m = ground (arith, results_settings jobs (publish_result job m).0)

  pub poll_settings :
      (between : Queue Sample → Queue Sample) (m : Manager Sample)
      → ((poll_completed between m).0.default_language ≡ m.default_language)
        × ((poll_completed between m).0.transcription_prompt ≡ m.transcription_prompt)
  unfolding poll_completed
  poll_settings between m =
      let (q, results) = Queue.drain_completed m.queue in
      let (q', ids) = Queue.drain_started (between q) in
      results_settings results (record m { queue = q' })

  -- Neither a TranscriptionCompleted nor a ConfigurationChanged.
  abbrev pub IsPlain : Event Sample → Type 0
  IsPlain (transcription_completed id t) = ⊥
  IsPlain (configuration_changed c) = ⊥
  IsPlain event = Unit

  abbrev pub AllPlain : List (Event Sample) → Type 0
  AllPlain [] = Unit
  AllPlain (event ∷ events) = IsPlain event × AllPlain events

  pub cancel-AllPlain : (now : ℕ) (m : Manager Sample) → AllPlain (cancel_session now m).1
  unfolding cancel_session Recorder.stop
  cancel-AllPlain now m = ground arith

dropped-AllPlain :
    (Sample : Type 0) (ids : List SessionId) → AllPlain {Sample = Sample} (dropped_events ids)
unfolding dropped_events
dropped-AllPlain Sample [] = tt
dropped-AllPlain Sample (id ∷ ids) = (tt, dropped-AllPlain Sample ids)

pub shutdown-AllPlain :
    {Sample : Type 0} (rest : Queue Sample → Queue Sample) (m : Manager Sample)
    → AllPlain (shutdown rest m).1
unfolding shutdown
shutdown-AllPlain {Sample} rest m = dropped-AllPlain Sample (shutdown rest m).2
