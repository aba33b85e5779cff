-- ===== src/Session/Queue/Examples.antt =====
-- Runs of the transcription queue.
use yoru_speech.Common.{ℕ, ◌≡◌, refl, true, List, [], ◌∷◌, ◌++◌, Extends, arith}
use yoru_speech.Core.Event.{SessionId}
use yoru_speech.Speech.Transcript.{TranscriptionResult, speech_error}
use yoru_speech.Session.Queue.{
  TranscriptionJob, create, try_enqueue, job_ids, set_activity_callback, cancel_pending, erase_job,
}
use yoru_speech.Session.Queue.Worker.{
  Action, enqueue, cancel, collect_started, collect_completed, set_callback, begin_shutdown,
  request_abort, join, work, free,
}
use yoru_speech.Session.Queue.History.{Traced, begin, advance, advance_all, works}
use yoru_speech.Session.Queue.Invariant.{IsValid, begin_all-IsValid}
use yoru_speech.Session.Queue.Ledger.{ledger}
use yoru_speech.Session.Queue.Ledger.Moving.{Moves, advance-Moves}
use yoru_speech.Session.Queue.Ordering.{
  IsBalanced, begin_all-IsBalanced, begin_all_fifo, collect_order,
}
use yoru_speech.Session.Queue.Shutdown.{IsQuiet, shutdown_joins}
use mathlib.Core.List.{Sublist}

abbrev job : SessionId → TranscriptionJob ℕ
job id = record {
  session_id = id;
  samples = id ∷ [];
  request = record { language = []; initial_prompt = [] };
}

abbrev result : TranscriptionResult
result = speech_error []

-- Three jobs, of which the second is cancelled while the first is transcribed.
abbrev script : List (Action ℕ)
script =
    set_callback true
    ∷ enqueue (job 1)
    ∷ enqueue (job 2)
    ∷ enqueue (job 3)
    ∷ work result
    ∷ cancel 2
    ∷ work result
    ∷ work result
    ∷ work result
    ∷ []

abbrev ended : List (Action ℕ)
ended = enqueue (job 1) ∷ enqueue (job 2) ∷ work result ∷ begin_shutdown ∷ request_abort ∷ []

abbrev six_results : List TranscriptionResult
six_results = result ∷ result ∷ result ∷ result ∷ result ∷ result ∷ []

abbrev after_script : Traced ℕ
after_script = advance_all (begin 2) script

-- The third job finds the queue full: two wait.
script_ids :
    (after_script.accepted ≡ 1 ∷ 2 ∷ [])
    × (after_script.cancelled ≡ 2 ∷ [])
    × (after_script.finished_jobs ≡ 1 ∷ [])
    × (after_script.rings ≡ 1)
unfolding advance_all advance begin create try_enqueue set_activity_callback cancel_pending
    erase_job
script_ids = (refl, refl, refl, refl)

begin_all-IsValid_example : IsValid 2 after_script
begin_all-IsValid_example = begin_all-IsValid 2 script

begin_all-IsBalanced_example : IsBalanced (ledger after_script)
begin_all-IsBalanced_example = begin_all-IsBalanced 2 script

begin_all_fifo_example :
    Sublist (after_script.begun_jobs ++ job_ids after_script.queue.pending) after_script.accepted
    × Sublist after_script.started_out after_script.accepted
    × Sublist after_script.completed_out after_script.accepted
begin_all_fifo_example = begin_all_fifo 2 script

advance-Moves_example :
    Moves after_script begin_shutdown
      (ledger after_script)
      (ledger (advance after_script begin_shutdown))
advance-Moves_example = advance-Moves after_script begin_shutdown

abbrev collected : Traced ℕ
collected =
    advance (advance_all (advance after_script collect_completed) (works (result ∷ [])))
      collect_started

collect_order_example : Extends collected.completed_out collected.started_out
unfolding advance_all advance begin create try_enqueue set_activity_callback
collect_order_example = collect_order 2 script (result ∷ []) refl

abbrev one_waits : Traced ℕ
one_waits = advance_all (begin 2) (enqueue (job 1) ∷ [])

abbrev joined : Traced ℕ
joined = advance (advance_all (advance_all (begin 2) ended) (works six_results)) join

shutdown_joins_example :
    IsQuiet joined
    × (joined.owner ≡ free)
    × (joined.begun_jobs ≡ (advance_all (begin 2) ended).begun_jobs)
    × (joined.abort_requested ≡ true)
    × (joined.queue.pending ≡ [])
unfolding advance_all advance begin create try_enqueue
shutdown_joins_example = shutdown_joins 2 ended six_results refl (omega arith)
