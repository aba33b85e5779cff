-- ===== src/Session/Queue/Worker.antt =====
-- The worker thread of transcription_queue.cpp beside its owner: a scheduler picks who acts, and
-- each action is one locked section or one step outside the lock.
use yoru_speech.Common.{ℕ, suc, Bool, true, false, List, [], ◌∷◌, if◌then◌else◌}
use yoru_speech.Core.Event.{SessionId}
use yoru_speech.Speech.Transcript.{TranscriptionResult}
use yoru_speech.Session.Queue.{
  TranscriptionJob, Queue, create, try_enqueue, cancel_pending, drain_started, drain_completed,
  set_activity_callback, stop_accepting, take_job, finish_job,
}

-- Where the worker is in run and notify_activity.
pub data Worker (Sample : Type 0) : Type 0 where
  waiting : Worker Sample
  -- Took a job; about to copy the callback under the lock.
  begun : TranscriptionJob Sample → Worker Sample
  -- Copied the callback (or that there is none); about to call it.
  ringing : TranscriptionJob Sample → Bool → Worker Sample
  transcribing : TranscriptionJob Sample → Worker Sample
  finished : Worker Sample
  ringing_done : Bool → Worker Sample
  stopped : Worker Sample

-- Where the owner is in shutdown.
pub data Owner : Type 0 where
  free aborting joining : Owner

-- The queue, its worker, and what they touch outside: the abort flag of the backend and how often
-- the activity callback ran.
pub record System (Sample : Type 0) : Type 0 where
  pub queue : Queue Sample
  pub worker : Worker Sample
  pub owner : Owner
  pub abort_requested : Bool
  pub rings : ℕ

pub data Action (Sample : Type 0) : Type 0 where
  enqueue : TranscriptionJob Sample → Action Sample
  cancel : SessionId → Action Sample
  collect_started collect_completed : Action Sample
  set_callback : Bool → Action Sample
  -- shutdown: the locked section, request_abort, and the return of join.
  begin_shutdown request_abort join : Action Sample
  -- The worker's next step; the result is what the backend returns if this step ends a transcription.
  work : TranscriptionResult → Action Sample

ring : Bool → ℕ → ℕ
ring callback n = if callback then suc n else n

module _ {Sample : Type 0} where
  unfoldable pub start : ℕ → System Sample
  unfolding create
  start capacity = record {
    queue = create capacity;
    worker = waiting;
    owner = free;
    abort_requested = false;
    rings = 0;
  }

  -- wake_.wait(…), and what follows under the same lock: return if stopping, else take a job.
  take_next : List (TranscriptionJob Sample) → System Sample → System Sample
  unfolding take_job
  take_next [] s = s
  take_next (job ∷ rest) s = record s {
    queue = take_job job rest s.queue;
    worker = begun job;
    abort_requested = false;
  }

  wake : System Sample → System Sample
  unfolding take_next
  wake s = if s.queue.stopping then record s { worker = stopped } else take_next s.queue.pending s

  run : Worker Sample → TranscriptionResult → System Sample → System Sample
  unfolding wake finish_job ring
  run waiting result s = wake s
  run (begun job) result s = record s { worker = ringing job s.queue.has_callback }
  run (ringing job callback) result s = record s {
    worker = transcribing job;
    rings = ring callback s.rings;
  }
  run (transcribing job) result s = record s {
    queue = finish_job job.session_id result s.queue;
    worker = finished;
  }
  run finished result s = record s { worker = ringing_done s.queue.has_callback }
  run (ringing_done callback) result s = record s {
    worker = waiting;
    rings = ring callback s.rings;
  }
  run stopped result s = s

  begin_shutdown_from : Owner → System Sample → System Sample
  unfolding stop_accepting
  begin_shutdown_from free s = record s { queue = (stop_accepting s.queue).0; owner = aborting }
  begin_shutdown_from _ s = s

  request_abort_from : Owner → System Sample → System Sample
  request_abort_from aborting s = record s { abort_requested = true; owner = joining }
  request_abort_from _ s = s

  -- join returns once the worker has left run.
  join_from : Owner → Worker Sample → System Sample → System Sample
  join_from joining stopped s = record s { owner = free }
  join_from _ _ s = s

  -- The owner is one thread: inside shutdown it does nothing else.
  if_free : Owner → System Sample → System Sample → System Sample
  if_free free s t = t
  if_free _ s t = s

  -- An action that is not enabled leaves the system as it is.
  unfoldable pub step : System Sample → Action Sample → System Sample
  unfolding begin_shutdown_from request_abort_from join_from if_free run
  step s (enqueue job) = if_free s.owner s (record s { queue = (try_enqueue job s.queue).0 })
  step s (cancel id) = if_free s.owner s (record s { queue = (cancel_pending id s.queue).0 })
  step s collect_started = if_free s.owner s (record s { queue = (drain_started s.queue).0 })
  step s collect_completed = if_free s.owner s (record s { queue = (drain_completed s.queue).0 })
  step s (set_callback given) =
      if_free s.owner s (record s { queue = set_activity_callback given s.queue })
  step s begin_shutdown = begin_shutdown_from s.owner s
  step s request_abort = request_abort_from s.owner s
  step s join = join_from s.owner s.worker s
  step s (work result) = run s.worker result s
