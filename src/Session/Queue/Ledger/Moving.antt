-- ===== src/Session/Queue/Ledger/Moving.antt =====
-- The ledger of the transcription queue, action by action.
use yoru_speech.Common.{
  ◌≡◌, refl, ap, Bool, ◌&&◌, has_value, if◌then◌else◌, Bool-cases, false, List, [], ◌∷◌, ◌++◌, inl,
  inr, arith, Option-cases,
}
use yoru_speech.Core.Event.{SessionId}
use yoru_speech.Speech.Transcript.{TranscriptionResult}
use yoru_speech.Session.Queue.{
  TranscriptionJob, try_enqueue, cancel_pending, erase_job, drain_started, drain_completed,
  set_activity_callback,
}
use yoru_speech.Session.Queue.Worker.{
  Worker, waiting, free, aborting, joining, transcribing, Action, enqueue, cancel, collect_started,
  collect_completed, set_callback, begin_shutdown, request_abort, join, work,
}
use yoru_speech.Session.Queue.History.{Traced, is_free, advance}
use yoru_speech.Session.Queue.Ledger.{Ledger, ledger, job_ids-append, erase_job_split}

-- The worker takes the job that waits longest, if there is one.
abbrev Takes : List SessionId → Ledger → Ledger → Type 0
Takes [] v w = w ≡ v
Takes (id ∷ rest) v w = w ≡ record v { waiting_ids = rest; begun_ids = v.begun_ids ++ id ∷ [] }

abbrev Works : {Sample : Type 0} → Worker Sample → Bool → Ledger → Ledger → Type 0
Works waiting false v w = Takes v.waiting_ids v w
Works _ _ v w = w ≡ v

-- One waiting job of that id is taken out.
abbrev Withdraws : SessionId → Ledger → Ledger → Type 0
Withdraws id v w =
    (before : List SessionId) × (after : List SessionId) × (v.waiting_ids ≡ before ++ id ∷ after)
    × (w ≡ record v { waiting_ids = before ++ after; cancelled = v.cancelled ++ id ∷ [] })

-- What an action in the state `t` makes of the ledger `v`.
abbrev pub Moves : {Sample : Type 0} → Traced Sample → Action Sample → Ledger → Ledger → Type 0
Moves t (enqueue j) v w =
    if is_free t.owner && has_value (try_enqueue j t.queue).1
    then (w ≡ record v {
      accepted = v.accepted ++ j.session_id ∷ [];
      waiting_ids = v.waiting_ids ++ j.session_id ∷ [];
    })
    else (w ≡ v)
Moves t (cancel id) v w =
    if is_free t.owner && (cancel_pending id t.queue).1 then Withdraws id v w else (w ≡ v)
Moves t begin_shutdown v w =
    if is_free t.owner
    then (w ≡ record v { waiting_ids = []; dropped = v.dropped ++ v.waiting_ids })
    else (w ≡ v)
Moves t (work r) v w = Works t.worker t.queue.stopping v w
Moves t _ v w = w ≡ v

module _ {Sample : Type 0} where
  enqueue-Moves :
      (t : Traced Sample) (j : TranscriptionJob Sample)
      → Moves t (enqueue j) (ledger t) (ledger (advance t (enqueue j)))
  unfolding advance try_enqueue
  enqueue-Moves t j = ground (arith, job_ids-append t.queue.pending (j ∷ []))

  cancel-Moves :
      (t : Traced Sample) (id : SessionId)
      → Moves t (cancel id) (ledger t) (ledger (advance t (cancel id)))
  unfolding advance cancel_pending
  cancel-Moves t id = elim (Option-cases (erase_job id t.queue.pending)) [
    | inl e ↦ ground (arith, e)
    | inr (ls, e) ↦
        let (before, after, p, q) = erase_job_split id t.queue.pending ls e in
        elim t.owner
            as (λ o.
              t.owner ≡ o → Moves t (cancel id) (ledger t) (ledger (advance t (cancel id)))) [
                | free ↦ λ f.
                    rw (cancel_pending, f, e)
                      (
                        before,
                        after,
                        p,
                        ap
                            (λ x. record (ledger t) {
                              waiting_ids = x;
                              cancelled = t.cancelled ++ id ∷ [];
                            })
                            q,
                      )
                | aborting ↦ λ f. ground (arith, f)
                | joining ↦ λ f. ground (arith, f)
              ]
          refl
  ]

  shutdown-Moves :
      (t : Traced Sample) → Moves t begin_shutdown (ledger t) (ledger (advance t begin_shutdown))
  unfolding advance
  shutdown-Moves t = ground arith

  take-Moves :
      (t : Traced Sample) (r : TranscriptionResult) (js : List (TranscriptionJob Sample))
      → t.worker ≡ waiting
      → t.queue.pending ≡ js
      → t.queue.stopping ≡ false
      → Moves t (work r) (ledger t) (ledger (advance t (work r)))
  unfolding advance
  take-Moves t r [] e p n = ground (arith, e, p, n)
  take-Moves t r (j ∷ js) e p n = ground (arith, e, p, n)

  work-Moves :
      (t : Traced Sample) (r : TranscriptionResult) (w : Worker Sample)
      → t.worker ≡ w
      → Moves t (work r) (ledger t) (ledger (advance t (work r)))
  unfolding advance
  work-Moves t r waiting e = elim (Bool-cases t.queue.stopping) [
    | inl n ↦ ground (arith, e, n)
    | inr n ↦ take-Moves t r t.queue.pending e refl n
  ]
  work-Moves t r (transcribing j) e = ground (arith, e)
  work-Moves t r _ e = ground (arith, e)

  -- What each action does to the ledger: try_enqueue, when no shutdown is on, pushes its job at the end
  -- if it reports a position, and else nothing; cancel_pending, when no shutdown is on, withdraws one
  -- waiting job of that id if it reports so, and else nothing; the shutdown abandons all that waits; a
  -- worker that waits takes the job that waits longest, if there is one and the queue is not
  -- stopping; and no other step of the worker and no other action touches the ledger.
  pub advance-Moves :
      (t : Traced Sample) (a : Action Sample) → Moves t a (ledger t) (ledger (advance t a))
  advance-Moves t (enqueue j) = enqueue-Moves t j
  advance-Moves t (cancel id) = cancel-Moves t id
  advance-Moves t collect_started = unfold advance drain_started in ground arith
  advance-Moves t collect_completed = unfold advance drain_completed in ground arith
  advance-Moves t (set_callback given) = unfold advance set_activity_callback in ground arith
  advance-Moves t begin_shutdown = shutdown-Moves t
  advance-Moves t request_abort = unfold advance in ground arith
  advance-Moves t join = unfold advance in ground arith
  advance-Moves t (work r) = work-Moves t r t.worker refl
