-- ===== src/Session/Queue/Ordering.antt =====
-- The order in which jobs are processed and reported, and that none is lost.
use mathlib.Core.List.{Sublist}
use mathlib.Core.List.{sublist-append_left, sublist-cons_self}
use mathlib.Core.List.Sublist
use yoru_speech.Common.{
  ℕ, ◌+◌, ◌≡◌, refl, sym, ap, ◌∙◌, List, [], ◌∷◌, ◌++◌, append-nil, append_assoc, arith,
  occurrences, occurrences-append, Extends, Extends-trans, Extends-append, Extends-refl,
}
use yoru_speech.Core.Event.{SessionId}
use yoru_speech.Speech.Transcript.{TranscriptionResult}
use yoru_speech.Session.Queue.{TranscriptionJob, job_ids, result_ids}
use yoru_speech.Session.Queue.Worker.{
  Worker, waiting, transcribing, Action, free, collect_started, collect_completed, work,
}
use yoru_speech.Session.Queue.History.{Traced, begin, advance, advance_all, works}
use yoru_speech.Session.Queue.Ledger.{
  Ledger, ledger, Change, kept, pushed, withdrawn, abandoned, taken, advance-Change,
}
use yoru_speech.Session.Queue.Invariant.{
  IsValid, current, begin_all-IsValid, advance-IsValid, advance_all-IsValid,
}

-- The jobs begun, then those that wait: the order of processing.
abbrev processing_order : Ledger → List SessionId
processing_order v = v.begun_ids ++ v.waiting_ids

abbrev IsFifo : Ledger → Type 0
IsFifo v = Sublist (processing_order v) v.accepted

Change-IsFifo : {v w : Ledger} → Change v w → IsFifo v → IsFifo w
Change-IsFifo {v} {w} (kept e) h = rw e h
Change-IsFifo {v} {w} (pushed id e) h = rw e (
    rw (← append_assoc v.begun_ids v.waiting_ids (id ∷ []))
      (Sublist.append h (Sublist.refl (id ∷ []))))
Change-IsFifo {v} {w} (withdrawn id before after p e) h = rw e (
    Sublist.trans
      (Sublist.append (Sublist.refl v.begun_ids)
        (Sublist.append (Sublist.refl before) (sublist-cons_self id after)))
      (rw p at h))
Change-IsFifo {v} {w} (abandoned e) h =
    rw e (rw append-nil (Sublist.trans (sublist-append_left v.begun_ids v.waiting_ids) h))
Change-IsFifo {v} {w} (taken id rest p e) h =
    rw e (rw (append_assoc v.begun_ids (id ∷ []) rest) (rw p at h))

-- Every accepted job is accounted for once: it was begun, cancelled, dropped, or still waits.
abbrev pub IsBalanced : Ledger → Type 0
IsBalanced v =
    (id : SessionId)
    → occurrences id v.accepted
      ≡ occurrences id v.begun_ids
        + occurrences id v.cancelled
        + occurrences id v.dropped
        + occurrences id v.waiting_ids

Change-IsBalanced : {v w : Ledger} → Change v w → IsBalanced v → IsBalanced w
Change-IsBalanced {v} {w} (kept e) h id = rw e (h id)
Change-IsBalanced {v} {w} (pushed j e) h id = rw e (
    omega (
      arith,
      h id,
      occurrences-append id v.accepted (j ∷ []),
      occurrences-append id v.waiting_ids (j ∷ []),
    ))
Change-IsBalanced {v} {w} (withdrawn j before after p e) h id = rw e (
    omega (
      arith,
      rw p at (h id),
      occurrences-append id v.cancelled (j ∷ []),
      occurrences-append id before (j ∷ after),
      occurrences-append id before after,
    ))
Change-IsBalanced {v} {w} (abandoned e) h id =
    rw e (omega (arith, h id, occurrences-append id v.dropped v.waiting_ids))
Change-IsBalanced {v} {w} (taken j rest p e) h id =
    rw e (omega (arith, rw p at (h id), occurrences-append id v.begun_ids (j ∷ [])))

Change-Extends : {v w : Ledger} → Change v w → Extends v.begun_ids w.begun_ids
Change-Extends {v} {w} (kept e) = rw e (Extends-refl v.begun_ids)
Change-Extends {v} {w} (pushed id e) = rw e (Extends-refl v.begun_ids)
Change-Extends {v} {w} (withdrawn id before after p e) = rw e (Extends-refl v.begun_ids)
Change-Extends {v} {w} (abandoned e) = rw e (Extends-refl v.begun_ids)
Change-Extends {v} {w} (taken id rest p e) = rw e (Extends-append v.begun_ids (id ∷ []))

module _ {Sample : Type 0} where
  advance_all-IsFifo :
      (t : Traced Sample) (as' : List (Action Sample))
      → IsFifo (ledger t)
      → IsFifo (ledger (advance_all t as'))
  unfolding advance_all
  advance_all-IsFifo t [] h = h
  advance_all-IsFifo t (a ∷ as') h =
      advance_all-IsFifo (advance t a) as' (Change-IsFifo (advance-Change t a) h)

  advance_all-IsBalanced :
      (t : Traced Sample) (as' : List (Action Sample))
      → IsBalanced (ledger t)
      → IsBalanced (ledger (advance_all t as'))
  unfolding advance_all
  advance_all-IsBalanced t [] h = h
  advance_all-IsBalanced t (a ∷ as') h =
      advance_all-IsBalanced (advance t a) as' (Change-IsBalanced (advance-Change t a) h)

  -- However owner and worker interleave, every job that try_enqueue accepted is in exactly one place:
  -- begun by the worker, cancelled, dropped at shutdown, or still waiting; none is lost or doubled.
  pub begin_all-IsBalanced :
      (capacity : ℕ) (as' : List (Action Sample))
      → IsBalanced (ledger (advance_all (begin capacity) as'))
  unfolding begin
  begin_all-IsBalanced capacity as' =
      advance_all-IsBalanced (begin capacity) as' (λ id. omega arith)

  completed-Extends :
      {capacity : ℕ} (t : Traced Sample) → IsValid capacity t → Extends t.completed_out t.begun_jobs
  completed-Extends t v = (
    result_ids t.queue.completed ++ current t.worker,
    v.in_progress
        ∙ ap (λ l. l ++ current t.worker) v.finished_split
        ∙ append_assoc t.completed_out (result_ids t.queue.completed) (current t.worker),
  )

  -- However owner and worker interleave, the jobs begun, followed by those that wait, stand in the
  -- order in which they were accepted; so do the ids that the owner was told are started, and the
  -- ids whose results it was handed.
  pub begin_all_fifo :
      (capacity : ℕ) (as' : List (Action Sample))
      → let t = advance_all (begin capacity) as' in
        Sublist (t.begun_jobs ++ job_ids t.queue.pending) t.accepted
        × Sublist t.started_out t.accepted
        × Sublist t.completed_out t.accepted
  begin_all_fifo capacity as' = (fifo, reported started, reported (completed-Extends t valid))
    where
      t : Traced Sample
      t = advance_all (begin capacity) as'

      valid : IsValid capacity t
      valid = begin_all-IsValid capacity as'

      fifo : IsFifo (ledger t)
      fifo = advance_all-IsFifo (begin capacity) as' (unfold begin in Sublist.refl [])

      started : Extends t.started_out t.begun_jobs
      started = (t.queue.started, valid.started_split)

      reported : {ids : List SessionId} → Extends ids t.begun_jobs → Sublist ids t.accepted
      reported {ids = ids} (rest, e) =
          Sublist.trans (rw (sym e) at (sublist-append_left ids rest))
            (Sublist.trans (sublist-append_left t.begun_jobs (job_ids t.queue.pending)) fifo)

  take_keeps :
      (t : Traced Sample) (r : TranscriptionResult) (js : List (TranscriptionJob Sample))
      → t.worker ≡ waiting
      → t.queue.pending ≡ js
      → let t' = advance t (work r) in (t'.completed_out ≡ t.completed_out) × (t'.owner ≡ t.owner)
  unfolding advance
  take_keeps t r [] e p = ground arith
  take_keeps t r (j ∷ js) e p = ground arith

  work_keeps :
      (t : Traced Sample) (r : TranscriptionResult) (w : Worker Sample)
      → t.worker ≡ w
      → let t' = advance t (work r) in (t'.completed_out ≡ t.completed_out) × (t'.owner ≡ t.owner)
  unfolding advance
  work_keeps t r waiting e = take_keeps t r t.queue.pending e refl
  work_keeps t r (transcribing j) e = ground arith
  work_keeps t r _ e = ground arith

  works_keep :
      (t : Traced Sample) (rs : List TranscriptionResult)
      → let t' = advance_all t (works rs) in
        (t'.completed_out ≡ t.completed_out)
        × (t'.owner ≡ t.owner)
        × Extends t.begun_jobs t'.begun_jobs
  unfolding advance_all
  works_keep t [] = (refl, refl, Extends-refl t.begun_jobs)
  works_keep t (r ∷ rs) =
      let one = work_keeps t r t.worker refl in
      let rest = works_keep (advance t (work r)) rs in
      (
        rest.0 ∙ one.0,
        rest.1 ∙ one.1,
        Extends-trans t.begun_jobs (Change-Extends (advance-Change t (work r))) rest.2,
      )

  collected :
      (t : Traced Sample)
      → t.owner ≡ free
      → ((advance t collect_started).started_out ≡ t.started_out ++ t.queue.started)
        × ((advance t collect_started).completed_out ≡ t.completed_out)
        × ((advance t collect_completed).owner ≡ free)
  unfolding advance
  collected t f = ground arith

  -- poll_completed: the owner collects the results first and the started ids second, and the worker
  -- may run in between. In a system that was reached from the start, whose owner is not in shutdown,
  -- the ids whose results have been collected are then a prefix of the ids collected as started:
  -- every job is reported as started before it is reported as completed.
  pub collect_order :
      (capacity : ℕ) (as' : List (Action Sample)) (rs : List TranscriptionResult)
      → let t = advance_all (begin capacity) as' in
        let t' = advance (advance_all (advance t collect_completed) (works rs)) collect_started in
        t.owner ≡ free → Extends t'.completed_out t'.started_out
  collect_order capacity as' rs f =
      let t₀ = advance_all (begin capacity) as' in
      let t₁ = advance t₀ collect_completed in
      let t₂ = advance_all t₁ (works rs) in
      let v₁ = advance-IsValid t₀ collect_completed (begin_all-IsValid capacity as') in
      let v₂ = advance_all-IsValid t₁ (works rs) v₁ in
      let kept_all = works_keep t₁ rs in
      let end = collected t₂ (kept_all.1 ∙ (collected t₀ f).2) in
      let (rest, e) = Extends-trans t₁.completed_out (completed-Extends t₁ v₁) kept_all.2 in
      (rest, cc)
