-- ===== src/Session/Queue/History.antt =====
-- What happened to the jobs of a transcription queue, kept beside the system of Worker. The source
-- has no such record; the theorems on ordering and delivery speak about it.
use yoru_speech.Common.{Bool, true, false, List, [], ◌∷◌, ◌++◌, has_value, if◌then◌else◌}
use yoru_speech.Core.Event.{SessionId}
use yoru_speech.Speech.Transcript.{TranscriptionResult}
use yoru_speech.Session.Queue.{
  TranscriptionJob, Queue, job_ids, result_ids, try_enqueue, cancel_pending,
}
use yoru_speech.Session.Queue.Worker.{
  System, Worker, waiting, transcribing, Owner, free, Action, enqueue, cancel, collect_started,
  collect_completed, begin_shutdown, work, start, step,
}
use yoru_speech.Common.{ℕ}

-- Session ids, oldest first: jobs that try_enqueue took, that cancel_pending removed, that shutdown
-- dropped, that the worker began and finished, and that the owner was told of.
pub record History : Type 0 where
  pub accepted : List SessionId
  pub cancelled : List SessionId
  pub dropped : List SessionId
  pub begun_jobs : List SessionId
  pub finished_jobs : List SessionId
  pub started_out : List SessionId
  pub completed_out : List SessionId

pub record Traced (Sample : Type 0) : Type 0 where
  pub system : System Sample
  pub open system use *
  pub history : History
  pub open history use *

abbrev nothing_yet : History
nothing_yet = record {
  accepted = [];
  cancelled = [];
  dropped = [];
  begun_jobs = [];
  finished_jobs = [];
  started_out = [];
  completed_out = [];
}

abbrev pub is_free : Owner → Bool
is_free free = true
is_free _ = false

module _ {Sample : Type 0} where
  unfoldable pub begin : ℕ → Traced Sample
  unfolding start
  begin capacity = record { system = start capacity; history = nothing_yet }

  began : Bool → List (TranscriptionJob Sample) → History → History
  began true js h = h
  began false [] h = h
  began false (j ∷ js) h = record h { begun_jobs = h.begun_jobs ++ j.session_id ∷ [] }

  worked : Worker Sample → Queue Sample → History → History
  unfolding began
  worked waiting q h = began q.stopping q.pending h
  worked (transcribing j) q h = record h { finished_jobs = h.finished_jobs ++ j.session_id ∷ [] }
  worked _ q h = h

  observe_free : System Sample → Action Sample → History → History
  observe_free s (enqueue j) h =
      if has_value (try_enqueue j s.queue).1
      then record h { accepted = h.accepted ++ j.session_id ∷ [] }
      else h
  observe_free s (cancel id) h =
      if (cancel_pending id s.queue).1 then record h { cancelled = h.cancelled ++ id ∷ [] } else h
  observe_free s collect_started h = record h { started_out = h.started_out ++ s.queue.started }
  observe_free s collect_completed h = record h {
    completed_out = h.completed_out ++ result_ids s.queue.completed;
  }
  observe_free s begin_shutdown h = record h { dropped = h.dropped ++ job_ids s.queue.pending }
  observe_free s _ h = h

  observe : System Sample → Action Sample → History → History
  unfolding observe_free worked
  observe s (work result) h = worked s.worker s.queue h
  observe s a h = if is_free s.owner then observe_free s a h else h

  unfoldable pub advance : Traced Sample → Action Sample → Traced Sample
  unfolding observe step
  advance t a = record { system = step t.system a; history = observe t.system a t.history }

  unfoldable pub advance_all : Traced Sample → List (Action Sample) → Traced Sample
  advance_all t [] = t
  advance_all t (a ∷ as') = advance_all (advance t a) as'

  -- Steps of the worker alone.
  abbrev pub works : List TranscriptionResult → List (Action Sample)
  works [] = []
  works (r ∷ rs) = work r ∷ works rs
