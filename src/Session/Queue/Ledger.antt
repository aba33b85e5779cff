-- ===== src/Session/Queue/Ledger.antt =====
-- The contract of the transcription queue: a ledger of jobs, oldest first, in which a job is pushed,
-- withdrawn, abandoned or taken from the front. Every action of the system is such a change.
pub mod Moving
use yoru_speech.Common.{
  ◌≡◌, refl, ap, ◌==◌, Bool, ◌&&◌, has_value, if◌then◌else◌, ◌⊎◌, Bool-cases, false, List, [], ◌∷◌,
  ◌++◌, some, inl, inr, arith, Option-cases,
}
use yoru_speech.Core.Event.{SessionId}
use yoru_speech.Speech.Transcript.{TranscriptionResult}
use yoru_speech.Session.Queue.{
  TranscriptionJob, job_ids, try_enqueue, cancel_pending, erase_job, drain_started, drain_completed,
  set_activity_callback,
}
use yoru_speech.Session.Queue.Worker.{
  Worker, waiting, Owner, free, aborting, joining, transcribing, Action, enqueue, cancel,
  collect_started, collect_completed, set_callback, begin_shutdown, request_abort, join, work,
}
use yoru_speech.Session.Queue.History.{Traced, is_free, advance}

pub record Ledger : Type 0 where
  pub accepted : List SessionId
  pub waiting_ids : List SessionId
  pub begun_ids : List SessionId
  pub cancelled : List SessionId
  pub dropped : List SessionId

abbrev pub ledger : {Sample : Type 0} → Traced Sample → Ledger
ledger t = record {
  accepted = t.accepted;
  waiting_ids = job_ids t.queue.pending;
  begun_ids = t.begun_jobs;
  cancelled = t.cancelled;
  dropped = t.dropped;
}

pub data Change (v w : Ledger) : Type 0 where
  kept : w ≡ v → Change v w
  pushed :
      (id : SessionId)
      → w ≡ record v { accepted = v.accepted ++ id ∷ []; waiting_ids = v.waiting_ids ++ id ∷ [] }
      → Change v w
  withdrawn :
      (id : SessionId) (before after : List SessionId)
      → v.waiting_ids ≡ before ++ id ∷ after
      → w ≡ record v { waiting_ids = before ++ after; cancelled = v.cancelled ++ id ∷ [] }
      → Change v w
  abandoned : w ≡ record v { waiting_ids = []; dropped = v.dropped ++ v.waiting_ids } → Change v w
  taken :
      (id : SessionId) (rest : List SessionId)
      → v.waiting_ids ≡ id ∷ rest
      → w ≡ record v { waiting_ids = rest; begun_ids = v.begun_ids ++ id ∷ [] }
      → Change v w

module _ {Sample : Type 0} where
  job_ids-append :
      (js ks : List (TranscriptionJob Sample)) → job_ids (js ++ ks) ≡ job_ids js ++ job_ids ks
  job_ids-append [] ks = refl
  job_ids-append (j ∷ js) ks = ap (◌∷◌ j.session_id) (job_ids-append js ks)

  erase_job_split :
      (id : SessionId) (js ks : List (TranscriptionJob Sample))
      → erase_job id js ≡ some ks
      → (before : List SessionId) × (after : List SessionId) × (job_ids js ≡ before ++ id ∷ after)
        × (job_ids ks ≡ before ++ after)
  unfolding erase_job
  erase_job_split id [] ks h = absurd (ground (arith, h))
  erase_job_split id (j ∷ js) ks h = elim (Bool-cases (j.session_id == id)) [
    | inl e ↦ ([], job_ids js, ground arith, ground arith)
    | inr e ↦ elim (Option-cases (erase_job id js)) [
      | inl missing ↦ absurd (ground (arith, missing, h))
      | inr (ls, found) ↦
          let (before, after, p, q) = erase_job_split id js ls found in
          (j.session_id ∷ before, after, ground arith, ground arith)
    ]
  ]

  enqueue-Change :
      (t : Traced Sample) (j : TranscriptionJob Sample)
      → Change (ledger t) (ledger (advance t (enqueue j)))
  unfolding advance try_enqueue
  enqueue-Change t j = elim outcome [ inl same ↦ kept same | inr new ↦ pushed j.session_id new ]
    where
      outcome :
          (ledger (advance t (enqueue j)) ≡ ledger t)
          ⊎ (ledger (advance t (enqueue j)) ≡ record (ledger t) {
            accepted = t.accepted ++ j.session_id ∷ [];
            waiting_ids = job_ids t.queue.pending ++ j.session_id ∷ [];
          })
      outcome = ground (arith, job_ids-append t.queue.pending (j ∷ []))

  cancel-Change :
      (t : Traced Sample) (id : SessionId) → Change (ledger t) (ledger (advance t (cancel id)))
  unfolding advance cancel_pending
  cancel-Change t id = elim (Option-cases (erase_job id t.queue.pending)) [
    | inl e ↦ kept (ground (arith, e))
    | inr (ls, e) ↦
        let (before, after, p, q) = erase_job_split id t.queue.pending ls e in
        elim t.owner as (λ o. t.owner ≡ o → Change (ledger t) (ledger (advance t (cancel id)))) [
          | free ↦ λ f. withdrawn id before after p (ground (arith, e, f))
          | aborting ↦ λ f. kept (ground arith)
          | joining ↦ λ f. kept (ground arith)
        ]
          refl
  ]

  shutdown-Change :
      (t : Traced Sample) (o : Owner)
      → t.owner ≡ o
      → Change (ledger t) (ledger (advance t begin_shutdown))
  unfolding advance
  shutdown-Change t free e = abandoned (ground arith)
  shutdown-Change t _ e = kept (ground arith)

  take-Change :
      (t : Traced Sample) (r : TranscriptionResult) (js : List (TranscriptionJob Sample))
      → t.worker ≡ waiting
      → t.queue.pending ≡ js
      → t.queue.stopping ≡ false
      → Change (ledger t) (ledger (advance t (work r)))
  unfolding advance
  take-Change t r [] e p n = kept (ground arith)
  take-Change t r (j ∷ js) e p n = taken j.session_id (job_ids js) (ground arith) (ground arith)

  work-Change :
      (t : Traced Sample) (r : TranscriptionResult) (w : Worker Sample)
      → t.worker ≡ w
      → Change (ledger t) (ledger (advance t (work r)))
  unfolding advance
  work-Change t r waiting e = elim (Bool-cases t.queue.stopping) [
    | inl n ↦ kept (ground arith)
    | inr n ↦ take-Change t r t.queue.pending e refl n
  ]
  work-Change t r (transcribing j) e = kept (ground arith)
  work-Change t r _ e = kept (ground arith)

  pub advance-Change :
      (t : Traced Sample) (a : Action Sample) → Change (ledger t) (ledger (advance t a))
  advance-Change t (enqueue j) = enqueue-Change t j
  advance-Change t (cancel id) = cancel-Change t id
  advance-Change t collect_started = unfold advance drain_started in kept (ground arith)
  advance-Change t collect_completed = unfold advance drain_completed in kept (ground arith)
  advance-Change t (set_callback given) =
      unfold advance set_activity_callback in kept (ground arith)
  advance-Change t begin_shutdown = shutdown-Change t t.owner refl
  advance-Change t request_abort = unfold advance in kept (ground arith)
  advance-Change t join = unfold advance in kept (ground arith)
  advance-Change t (work r) = work-Change t r t.worker refl
