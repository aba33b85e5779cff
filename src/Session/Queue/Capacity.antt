-- ===== src/Session/Queue/Capacity.antt =====
-- has_capacity, try_enqueue and outstanding_count of transcription_queue.cpp together.
use yoru_speech.Common.{
  ◌+◌, ◌≡◌, refl, ◌⊎◌, inl, inr, none, Bool-cases, true, false, List, [], ◌∷◌, some, has_value,
  arith, length-append,
}
use yoru_speech.Speech.Transcript.{TranscriptionResult}
use yoru_speech.Session.Queue.{
  TranscriptionJob, Queue, has_capacity, try_enqueue, outstanding_count,
}
use yoru_speech.Session.Queue.Worker.{Worker, waiting, transcribing, work}
use yoru_speech.Session.Queue.History.{Traced, advance, advance_all, works}

module _ {Sample : Type 0} where
  pub accept_lem :
      (job : TranscriptionJob Sample) (q : Queue Sample)
      → has_capacity q ≡ true
      → ((try_enqueue job q).1 ≡ some (outstanding_count q))
        × (outstanding_count (try_enqueue job q).0 ≡ outstanding_count q + 1)
  unfolding has_capacity try_enqueue outstanding_count
  accept_lem job q h = ground (arith, length-append q.pending (job ∷ []))

  refuse_lem :
      (job : TranscriptionJob Sample) (q : Queue Sample)
      → has_capacity q ≡ false
      → try_enqueue job q ≡ (q, none)
  unfolding has_capacity try_enqueue
  refuse_lem job q h = ground arith

  -- When has_capacity says so, try_enqueue accepts a job, returns as position the number of jobs
  -- outstanding before, the one being transcribed included, and one more is outstanding; when it
  -- says no, try_enqueue refuses and changes nothing.
  pub try_enqueue_lem :
      (job : TranscriptionJob Sample) (q : Queue Sample)
      → ((has_capacity q ≡ true)
          × ((try_enqueue job q).1 ≡ some (outstanding_count q))
          × (outstanding_count (try_enqueue job q).0 ≡ outstanding_count q + 1))
        ⊎ ((has_capacity q ≡ false) × (try_enqueue job q ≡ (q, none)))
  try_enqueue_lem job q = elim (Bool-cases (has_capacity q)) [
    | inl h ↦ let (position, more) = accept_lem job q h in inl (h, position, more)
    | inr h ↦ inr (h, refuse_lem job q h)
  ]

  take_has_capacity :
      (t : Traced Sample) (r : TranscriptionResult) (js : List (TranscriptionJob Sample))
      → t.worker ≡ waiting
      → t.queue.pending ≡ js
      → has_capacity t.queue ≡ true
      → has_capacity (advance t (work r)).queue ≡ true
  unfolding advance has_capacity
  take_has_capacity t r [] e p h = ground arith
  take_has_capacity t r (j ∷ js) e p h = ground arith

  work_has_capacity :
      (t : Traced Sample) (r : TranscriptionResult) (w : Worker Sample)
      → t.worker ≡ w
      → has_capacity t.queue ≡ true
      → has_capacity (advance t (work r)).queue ≡ true
  unfolding advance has_capacity
  work_has_capacity t r waiting e h = take_has_capacity t r t.queue.pending e refl h
  work_has_capacity t r (transcribing j) e h = ground arith
  work_has_capacity t r _ e h = ground arith

  -- The check-then-act of start_session and stop_session: once the owner has seen room in the queue,
  -- no step of the worker takes the room away, so the next try_enqueue is accepted.
  pub room_stays :
      (t : Traced Sample) (rs : List TranscriptionResult) (job : TranscriptionJob Sample)
      → has_capacity t.queue ≡ true
      → has_value (try_enqueue job (advance_all t (works rs)).queue).1 ≡ true
  unfolding advance_all
  room_stays t [] job h = ground (arith, accept_lem job t.queue h)
  room_stays t (r ∷ rs) job h =
      room_stays (advance t (work r)) rs job (work_has_capacity t r t.worker refl h)
