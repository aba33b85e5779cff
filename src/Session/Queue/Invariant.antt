-- ===== src/Session/Queue/Invariant.antt =====
-- The invariant of the queue, its worker and its owner.
use yoru_speech.Common.{
  ℕ, ◌+◌, ◌≤◌, ◌≡◌, refl, ◌≢◌, Bool, true, false, List, [], ◌∷◌, ◌++◌, append-nil, append_assoc,
  some, inl, inr, arith, length, length-append, Option-cases,
}
use yoru_speech.Core.Event.{SessionId}
use yoru_speech.Speech.Transcript.{TranscriptionResult}
use yoru_speech.Session.Queue.{
  TranscriptionJobResult, TranscriptionJob, create, result_ids, try_enqueue, cancel_pending,
  erase_job, drain_started, drain_completed, set_activity_callback,
}
use yoru_speech.Session.Queue.Worker.{
  Worker, waiting, begun, ringing, transcribing, free, joining, Action, enqueue, cancel,
  collect_started, collect_completed, set_callback, begin_shutdown, request_abort, join, work,
}
use yoru_speech.Session.Queue.History.{Traced, begin, advance, advance_all}

abbrev pub current : {Sample : Type 0} → Worker Sample → List SessionId
current (begun j) = j.session_id ∷ []
current (ringing j b) = j.session_id ∷ []
current (transcribing j) = j.session_id ∷ []
current _ = []

abbrev pub is_active : {Sample : Type 0} → Worker Sample → Bool
is_active (begun j) = true
is_active (ringing j b) = true
is_active (transcribing j) = true
is_active _ = false

pub record IsValid {Sample : Type 0} (capacity : ℕ) (t : Traced Sample) : Type 0 where
  pub fixed : t.queue.capacity ≡ capacity
  pub bounded : length t.queue.pending ≤ capacity
  pub started_split : t.begun_jobs ≡ t.started_out ++ t.queue.started
  pub finished_split : t.finished_jobs ≡ t.completed_out ++ result_ids t.queue.completed
  pub in_progress : t.begun_jobs ≡ t.finished_jobs ++ current t.worker
  pub busy_says : t.queue.busy ≡ is_active t.worker
  pub nothing_waits : t.queue.stopping ≡ true → t.queue.pending ≡ []
  pub shutdown_stops : t.owner ≢ free → t.queue.stopping ≡ true
  pub abort_stays : t.owner ≡ joining → t.abort_requested ≡ true

result_ids-append :
    (rs ss : List TranscriptionJobResult) → result_ids (rs ++ ss) ≡ result_ids rs ++ result_ids ss
result_ids-append [] ss = refl
result_ids-append (r ∷ rs) ss = ground (arith, result_ids-append rs ss)

module _ {Sample : Type 0} where
  erase_job-length :
      (id : SessionId) (js ks : List (TranscriptionJob Sample))
      → erase_job id js ≡ some ks
      → length js ≡ length ks + 1
  unfolding erase_job
  erase_job-length id [] ks h = ground (arith, h)
  erase_job-length id (j ∷ js) ks h = elim (Option-cases (erase_job id js)) [
    | inl e ↦ ground (arith, e, h)
    | inr (ls, e) ↦ ground (arith, erase_job-length id js ls e, e, h)
  ]

  begin-IsValid : (capacity : ℕ) → IsValid capacity (begin {Sample = Sample} capacity)
  unfolding begin create
  begin-IsValid capacity = ground arith

module _ {Sample : Type 0} {capacity : ℕ} where
  enqueue-IsValid :
      (t : Traced Sample) (j : TranscriptionJob Sample)
      → IsValid capacity t
      → IsValid capacity (advance t (enqueue j))
  unfolding advance try_enqueue
  enqueue-IsValid t j v = ground (arith, length-append t.queue.pending (j ∷ []))

  cancel-IsValid :
      (t : Traced Sample) (id : SessionId)
      → IsValid capacity t
      → IsValid capacity (advance t (cancel id))
  unfolding advance cancel_pending
  cancel-IsValid t id v = elim (Option-cases (erase_job id t.queue.pending)) [
    | inl e ↦ ground (arith, e)
    | inr (ls, e) ↦ ground (arith, e, erase_job-length id t.queue.pending ls e)
  ]

  collect-IsValid :
      (t : Traced Sample)
      → IsValid capacity t
      → IsValid capacity (advance t collect_started)
        × IsValid capacity (advance t collect_completed)
  unfolding advance drain_started drain_completed
  collect-IsValid t v = ground (
    arith,
    append-nil (t.started_out ++ t.queue.started),
    append-nil (t.completed_out ++ result_ids t.queue.completed),
  )

  shutdown-IsValid :
      (t : Traced Sample)
      → IsValid capacity t
      → IsValid capacity (advance t begin_shutdown)
        × IsValid capacity (advance t request_abort)
        × IsValid capacity (advance t join)
  unfolding advance
  shutdown-IsValid t v = ground arith

  take-IsValid :
      (t : Traced Sample) (r : TranscriptionResult) (js : List (TranscriptionJob Sample))
      → t.worker ≡ waiting
      → t.queue.pending ≡ js
      → IsValid capacity t
      → IsValid capacity (advance t (work r))
  unfolding advance
  take-IsValid t r [] e p v = ground arith
  take-IsValid t r (j ∷ js) e p v = ground (
    arith,
    append_assoc t.started_out t.queue.started (j.session_id ∷ []),
    append-nil t.finished_jobs,
  )

  work-IsValid :
      (t : Traced Sample) (r : TranscriptionResult) (w : Worker Sample)
      → t.worker ≡ w
      → IsValid capacity t
      → IsValid capacity (advance t (work r))
  unfolding advance
  work-IsValid t r waiting e v = take-IsValid t r t.queue.pending e refl v
  work-IsValid t r (transcribing j) e v = ground (
    arith,
    append_assoc t.completed_out (result_ids t.queue.completed) (j.session_id ∷ []),
    append-nil (t.finished_jobs ++ j.session_id ∷ []),
    result_ids-append t.queue.completed (record { session_id = j.session_id; result = r } ∷ []),
  )
  work-IsValid t r _ e v = ground arith

  -- Every action of the owner and every step of the worker keeps the invariant.
  pub advance-IsValid :
      (t : Traced Sample) (a : Action Sample) → IsValid capacity t → IsValid capacity (advance t a)
  advance-IsValid t (enqueue j) v = enqueue-IsValid t j v
  advance-IsValid t (cancel id) v = cancel-IsValid t id v
  advance-IsValid t collect_started v = (collect-IsValid t v).0
  advance-IsValid t collect_completed v = (collect-IsValid t v).1
  advance-IsValid t (set_callback given) v = unfold advance set_activity_callback in ground arith
  advance-IsValid t begin_shutdown v = (shutdown-IsValid t v).0
  advance-IsValid t request_abort v = (shutdown-IsValid t v).1
  advance-IsValid t join v = (shutdown-IsValid t v).2
  advance-IsValid t (work r) v = work-IsValid t r t.worker refl v

  pub advance_all-IsValid :
      (t : Traced Sample) (as' : List (Action Sample))
      → IsValid capacity t
      → IsValid capacity (advance_all t as')
  unfolding advance_all
  advance_all-IsValid t [] v = v
  advance_all-IsValid t (a ∷ as') v = advance_all-IsValid (advance t a) as' (advance-IsValid t a v)

module _ {Sample : Type 0} where
  -- However the owner and the worker interleave, from the start on: no more jobs wait than the
  -- capacity; the started and the completed ids are what the owner collected followed by what it has
  -- still to collect; the worker began exactly what it finished and the job it is on, and is on one
  -- exactly while busy; nothing waits in a stopping queue; and inside shutdown the queue is stopping,
  -- and past request_abort the abort flag stays set until join returns.
  pub begin_all-IsValid :
      (capacity : ℕ) (as' : List (Action Sample))
      → IsValid capacity (advance_all (begin {Sample = Sample} capacity) as')
  begin_all-IsValid capacity as' = advance_all-IsValid _ as' (begin-IsValid capacity)
