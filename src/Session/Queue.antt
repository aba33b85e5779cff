-- ===== src/Session/Queue.antt =====
-- domains/session/transcription_queue.hpp and transcription_queue.cpp: the data under mutex_ and the
-- methods of the owner, each one locked section. The worker and its interleavings are in Worker.
-- TranscriptionJob::enqueued_at is written and never read, and is left out.
pub mod Worker
pub mod History
pub mod Invariant
pub mod Ledger
pub mod Capacity
pub mod Ordering
pub mod Shutdown
mod Examples
use yoru_speech.Common.{
  ℕ, ◌+◌, ltb, leb, ◌==◌, Bool, true, false, not, ◌&&◌, ◌||◌, List, [], ◌∷◌, ◌++◌, Option, none,
  some, length, if◌then◌else◌,
}
use yoru_speech.Core.Event.{SessionId}
use yoru_speech.Speech.Transcript.{TranscriptionRequest, TranscriptionResult}

pub record TranscriptionJob (Sample : Type 0) : Type 0 where
  pub session_id : SessionId
  pub samples : List Sample
  pub request : TranscriptionRequest

pub record QueueSnapshot : Type 0 where
  pub pending : ℕ
  pub busy : Bool

pub record TranscriptionJobResult : Type 0 where
  pub session_id : SessionId
  pub result : TranscriptionResult

-- `has_callback` is whether on_activity_ is set.
pub record Queue (Sample : Type 0) : Type 0 where
  pub capacity : ℕ
  pub pending : List (TranscriptionJob Sample)
  pub started : List SessionId
  pub completed : List TranscriptionJobResult
  pub busy : Bool
  pub stopping : Bool
  pub has_callback : Bool

abbrev pub default_capacity : ℕ
default_capacity = 8

abbrev pub job_ids : {Sample : Type 0} → List (TranscriptionJob Sample) → List SessionId
job_ids [] = []
job_ids (j ∷ js) = j.session_id ∷ job_ids js

abbrev pub result_ids : List TranscriptionJobResult → List SessionId
result_ids [] = []
result_ids (r ∷ rs) = r.session_id ∷ result_ids rs

abbrev pub busy_count : Bool → ℕ
busy_count busy = if busy then 1 else 0

module _ {Sample : Type 0} where
  unfoldable pub create : ℕ → Queue Sample
  create capacity = record {
    capacity = capacity;
    pending = [];
    started = [];
    completed = [];
    busy = false;
    stopping = false;
    has_callback = false;
  }

  unfoldable pub has_capacity : Queue Sample → Bool
  has_capacity q = not q.stopping && ltb (length q.pending) q.capacity

  unfoldable pub try_enqueue : TranscriptionJob Sample → Queue Sample → Queue Sample × Option ℕ
  try_enqueue job q = if q.stopping || leb q.capacity (length q.pending) then (q, none) else (
    record q { pending = q.pending ++ job ∷ [] },
    some (length q.pending + busy_count q.busy),
  )

  cons_rest :
      TranscriptionJob Sample
      → Option (List (TranscriptionJob Sample))
      → Option (List (TranscriptionJob Sample))
  cons_rest j none = none
  cons_rest j (some ks) = some (j ∷ ks)

  -- The loop of cancel_pending: the first waiting job with that id, taken out.
  unfoldable pub erase_job :
      SessionId → List (TranscriptionJob Sample) → Option (List (TranscriptionJob Sample))
  unfolding cons_rest
  erase_job id [] = none
  erase_job id (j ∷ js) = if j.session_id == id then some js else cons_rest j (erase_job id js)

  unfoldable pub cancel_pending : SessionId → Queue Sample → Queue Sample × Bool
  cancel_pending id q = elim (erase_job id q.pending) [
    | none ↦ (q, false)
    | some rest ↦ (record q { pending = rest }, true)
  ]

  unfoldable pub drain_started : Queue Sample → Queue Sample × List SessionId
  drain_started q = (record q { started = [] }, q.started)

  unfoldable pub drain_completed : Queue Sample → Queue Sample × List TranscriptionJobResult
  drain_completed q = (record q { completed = [] }, q.completed)

  unfoldable pub set_activity_callback : Bool → Queue Sample → Queue Sample
  set_activity_callback given q = record q { has_callback = given }

  unfoldable pub snapshot : Queue Sample → QueueSnapshot
  snapshot q = record { pending = length q.pending; busy = q.busy }

  unfoldable pub outstanding_count : Queue Sample → ℕ
  outstanding_count q = length q.pending + busy_count q.busy

  -- The locked section of shutdown.
  unfoldable pub stop_accepting : Queue Sample → Queue Sample × List SessionId
  stop_accepting q = (record q { stopping = true; pending = [] }, job_ids q.pending)

  -- The locked section of run that takes the next job; the caller has seen that there is one and
  -- that the queue is not stopping.
  unfoldable pub take_job :
      TranscriptionJob Sample → List (TranscriptionJob Sample) → Queue Sample → Queue Sample
  take_job job rest q = record q {
    pending = rest;
    busy = true;
    started = q.started ++ job.session_id ∷ [];
  }

  -- The locked section of run that hands the result over.
  unfoldable pub finish_job : SessionId → TranscriptionResult → Queue Sample → Queue Sample
  finish_job id result q = record q {
    busy = false;
    completed = q.completed ++ record { session_id = id; result = result } ∷ [];
  }
