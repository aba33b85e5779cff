-- ===== src/Session/Queue/Shutdown.antt =====
-- shutdown of transcription_queue.cpp: it ends, its abort request cannot be lost, and nothing runs
-- afterwards.
use yoru_speech.Common.{ℕ, ◌-◌, ◌≤◌, length, ◌≡◌, refl, ◌∙◌, true, List, [], ◌∷◌, arith}
use yoru_speech.Speech.Transcript.{TranscriptionResult}
use yoru_speech.Session.Queue.{
  try_enqueue, cancel_pending, drain_started, drain_completed, set_activity_callback,
}
use yoru_speech.Session.Queue.Worker.{
  Worker, waiting, begun, ringing, transcribing, finished, ringing_done, stopped, free, joining,
  Action, enqueue, join, work,
}
use yoru_speech.Session.Queue.History.{Traced, begin, advance, advance_all, works}
use yoru_speech.Session.Queue.Invariant.{begin_all-IsValid}

module _ {Sample : Type 0} where
  -- The worker left run and the queue takes nothing.
  abbrev pub IsQuiet : Traced Sample → Type 0
  IsQuiet t = (t.worker ≡ stopped) × (t.queue.stopping ≡ true)

  abbrev pub SameWork : Traced Sample → Traced Sample → Type 0
  SameWork t u =
      (u.rings ≡ t.rings) × (u.begun_jobs ≡ t.begun_jobs) × (u.finished_jobs ≡ t.finished_jobs)

  IsQuiet-step :
      (t : Traced Sample) (a : Action Sample)
      → IsQuiet t
      → IsQuiet (advance t a) × SameWork t (advance t a)
  unfolding advance try_enqueue cancel_pending drain_started drain_completed set_activity_callback
  IsQuiet-step t (enqueue j) q = ground arith
  IsQuiet-step t (work r) q = ground arith
  IsQuiet-step t _ q = ground arith

  -- Once the worker has stopped, no later action of the owner or the worker runs the activity
  -- callback, begins a job or finishes one.
  pub IsQuiet-for_good :
      (t : Traced Sample) (as' : List (Action Sample))
      → IsQuiet t
      → IsQuiet (advance_all t as') × SameWork t (advance_all t as')
  unfolding advance_all
  IsQuiet-for_good t [] q = (q, (refl, refl, refl))
  IsQuiet-for_good t (a ∷ as') q =
      let (q', one) = IsQuiet-step t a q in
      let (q'', rest) = IsQuiet-for_good (advance t a) as' q' in
      (q'', (rest.0 ∙ one.0, rest.1 ∙ one.1, rest.2 ∙ one.2))

  -- How many steps the worker still needs to leave run in a stopping queue.
  abbrev steps_left : Worker Sample → ℕ
  steps_left (begun j) = 6
  steps_left (ringing j b) = 5
  steps_left (transcribing j) = 4
  steps_left finished = 3
  steps_left (ringing_done b) = 2
  steps_left waiting = 1
  steps_left stopped = 0

  -- The worker while the owner waits in join.
  abbrev IsJoining : Traced Sample → Type 0
  IsJoining t =
      (t.owner ≡ joining)
      × (t.queue.stopping ≡ true)
      × (t.queue.pending ≡ [])
      × (t.abort_requested ≡ true)

  IsJoining-step :
      (t : Traced Sample) (r : TranscriptionResult) (w : Worker Sample)
      → t.worker ≡ w
      → IsJoining t
      → let t' = advance t (work r) in
        IsJoining t' × (t'.begun_jobs ≡ t.begun_jobs) × (steps_left t'.worker ≤ steps_left w - 1)
  unfolding advance
  IsJoining-step t r waiting e j = ground arith
  IsJoining-step t r stopped e j = ground arith
  IsJoining-step t r _ e j = ground arith

  stopped_at_zero : (w : Worker Sample) → steps_left w ≤ 0 → w ≡ stopped
  stopped_at_zero stopped h = refl
  stopped_at_zero _ h = absurd (omega arith)

  IsJoining-works :
      (t : Traced Sample) (rs : List TranscriptionResult)
      → IsJoining t
      → steps_left t.worker ≤ length rs
      → let t' = advance_all t (works rs) in
        IsJoining t' × (t'.begun_jobs ≡ t.begun_jobs) × (t'.worker ≡ stopped)
  unfolding advance_all
  IsJoining-works t [] j h = (j, refl, stopped_at_zero t.worker h)
  IsJoining-works t (r ∷ rs) j h =
      let (j', same, fewer) = IsJoining-step t r t.worker refl j in
      let (j'', same', end) = IsJoining-works (advance t (work r)) rs j' (omega arith) in
      (j'', same' ∙ same, end)

  steps_left-le : (w : Worker Sample) → steps_left w ≤ 6
  steps_left-le waiting = omega arith
  steps_left-le _ = omega arith

  join_step :
      (t : Traced Sample)
      → IsJoining t
      → t.worker ≡ stopped
      → let t' = advance t join in
        IsQuiet t'
        × (t'.owner ≡ free)
        × (t'.begun_jobs ≡ t.begun_jobs)
        × (t'.abort_requested ≡ true)
        × (t'.queue.pending ≡ [])
  unfolding advance
  join_step t j e = ground arith

  -- From any reachable state in which the owner waits in join, at most six steps of the worker (one
  -- transcription's return among them) end run, whatever the backend returns; then join returns, no
  -- further job was begun, none waits, and the abort request still stands.
  pub shutdown_joins :
      (capacity : ℕ) (as' : List (Action Sample)) (rs : List TranscriptionResult)
      → let t = advance_all (begin capacity) as' in
        let t' = advance (advance_all t (works rs)) join in
        t.owner ≡ joining
        → 6 ≤ length rs
        → IsQuiet t'
          × (t'.owner ≡ free)
          × (t'.begun_jobs ≡ t.begun_jobs)
          × (t'.abort_requested ≡ true)
          × (t'.queue.pending ≡ [])
  shutdown_joins capacity as' rs o h =
      let t = advance_all (begin capacity) as' in
      let v = begin_all-IsValid capacity as' in
      let stops = v.shutdown_stops (λ f. cc) in
      let (j, same, end) =
        IsJoining-works t rs (o, stops, v.nothing_waits stops, v.abort_stays o)
          (omega (arith, steps_left-le t.worker)) in
      let (quiet, f, same', a, p) = join_step (advance_all t (works rs)) j end in
      (quiet, f, same' ∙ same, a, p)
