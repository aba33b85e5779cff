-- ===== src/Clipboard/Adapter/Waiting.antt =====
-- The loop of WlClipboardAdapter::copy that waits for the child: it ends, and the child is reaped.
use yoru_speech.Common.{
  ℕ, zero, suc, ◌+◌, ◌*◌, ◌≤◌, leb, tests, ◌≡◌, refl, ◌⊎◌, inl, inr, Bool, Bool-cases, true, false,
  not, ◌&&◌, List, [], ◌∷◌, ◌++◌, Option, none, some, Text, arith,
}
use yoru_speech.Clipboard.Adapter.{
  poll_interval, Status, Waited, reaped, not_reaped, Round, Call, pipe, fork, close_read,
  close_write, write, reap, poll, kill, sleep, WaitEnd, finished, timed_out, noted, wait_from,
}

-- What the parent holds: the ends of the pipe that are open, and a child that is not reaped.
pub record Held : Type 0 where
  pub read_end : Bool
  pub write_end : Bool
  pub child : Bool

abbrev pub nothing : Held
nothing = record { read_end = false; write_end = false; child = false }

allowed : Bool → Held → Option Held
allowed true held = some held
allowed false held = none

-- What it holds after a call; `none` is a call that uses or gives up what it does not hold.
unfoldable pub after_call : Held → Call → Option Held
unfolding allowed
after_call h pipe =
    allowed (not h.read_end && not h.write_end) (record h { read_end = true; write_end = true })
after_call h fork = allowed (not h.child) (record h { child = true })
after_call h close_read = allowed h.read_end (record h { read_end = false })
after_call h close_write = allowed h.write_end (record h { write_end = false })
after_call h (write bytes) = allowed h.write_end h
after_call h reap = allowed h.child (record h { child = false })
after_call h poll = allowed h.child h
after_call h kill = allowed h.child h
after_call h sleep = some h

continue : Option Held → (Held → Option Held) → Option Held
continue none f = none
continue (some h) f = f h

unfoldable pub after_calls : Held → List Call → Option Held
unfolding continue
after_calls h [] = some h
after_calls h (call ∷ calls) = continue (after_call h call) (λ h'. after_calls h' calls)

abbrev pub child_only : Held
child_only = record { read_end = false; write_end = false; child = true }

-- The bytes that were written.
abbrev pub written : List Call → Text
written [] = []
written (write bytes ∷ calls) = bytes ++ written calls
written (pipe ∷ calls) = written calls
written (fork ∷ calls) = written calls
written (close_read ∷ calls) = written calls
written (close_write ∷ calls) = written calls
written (reap ∷ calls) = written calls
written (poll ∷ calls) = written calls
written (kill ∷ calls) = written calls
written (sleep ∷ calls) = written calls

-- Why the loop ends.
abbrev pub EndsBy : (ℕ → Round) → ℕ → WaitEnd → Type 0
EndsBy rounds deadline (finished status) = (i : ℕ) × ((rounds i).waited ≡ reaped status)
EndsBy rounds deadline timed_out =
    (i : ℕ) × ((rounds i).waited ≡ not_reaped) × (deadline ≤ (rounds i).now)

abbrev pub Waits : (ℕ → Round) → ℕ → Option (WaitEnd × List Call) → Type 0
Waits rounds deadline o =
    (r : WaitEnd × List Call) × (o ≡ some r)
    × (after_calls child_only r.1 ≡ some nothing)
    × (written r.1 ≡ [])
    × EndsBy rounds deadline r.0

Waited-cases : (w : Waited) → ((status : Status) × (w ≡ reaped status)) ⊎ (w ≡ not_reaped)
Waited-cases (reaped status) = inl (status, refl)
Waited-cases not_reaped = inr refl

noted-Waits :
    (rounds : ℕ → Round) (deadline : ℕ) (o : Option (WaitEnd × List Call))
    → Waits rounds deadline o
    → Waits rounds deadline (noted (poll ∷ sleep ∷ []) o)
unfolding noted after_calls after_call
noted-Waits rounds deadline o ((end, calls), e, clean, silent, ends) =
    rw e ((end, poll ∷ sleep ∷ calls), refl, clean, silent, ends)

module _ (rounds : ℕ → Round) (deadline : ℕ) where
  wait_reaped :
      (fuel n : ℕ) (status : Status)
      → (rounds n).waited ≡ reaped status
      → wait_from (suc fuel) rounds n deadline ≡ some (finished status, reap ∷ [])
  unfolding wait_from
  wait_reaped fuel n status h = ground (arith, h)

  wait_late :
      (fuel n : ℕ)
      → (rounds n).waited ≡ not_reaped
      → leb deadline (rounds n).now ≡ true
      → wait_from (suc fuel) rounds n deadline ≡ some (timed_out, poll ∷ kill ∷ reap ∷ [])
  unfolding wait_from
  wait_late fuel n h late = ground (arith, h, late)

  wait_on :
      (fuel n : ℕ)
      → (rounds n).waited ≡ not_reaped
      → leb deadline (rounds n).now ≡ false
      → wait_from (suc fuel) rounds n deadline
        ≡ noted (poll ∷ sleep ∷ []) (wait_from fuel rounds (suc n) deadline)
  unfolding wait_from
  wait_on fuel n h early = ground (arith, h, early)

  -- One turn, given the turns after it.
  turn-Waits :
      (fuel n : ℕ)
      → (leb deadline (rounds n).now ≡ false
          → Waits rounds deadline (wait_from fuel rounds (suc n) deadline))
      → Waits rounds deadline (wait_from (suc fuel) rounds n deadline)
  unfolding after_calls after_call
  turn-Waits fuel n later = elim (Waited-cases (rounds n).waited) [
    | inl (status, e) ↦
        rw (wait_reaped fuel n status e) ((finished status, reap ∷ []), refl, refl, refl, (n, e))
    | inr e ↦ elim (Bool-cases (leb deadline (rounds n).now)) [
      | inl late ↦
          rw (wait_late fuel n e late)
            ((timed_out, poll ∷ kill ∷ reap ∷ []), refl, refl, refl, (n, e, omega (tests, late)))
      | inr early ↦
          rw (wait_on fuel n e early)
            (noted-Waits rounds deadline (wait_from fuel rounds (suc n) deadline) (later early))
    ]
  ]

  module _ (advances : (i : ℕ) → (rounds i).now + poll_interval ≤ (rounds (suc i)).now) where
    pub wait_from-Waits :
        (fuel n : ℕ)
        → deadline ≤ (rounds n).now + fuel * poll_interval
        → Waits rounds deadline (wait_from (suc fuel) rounds n deadline)
    wait_from-Waits zero n h = turn-Waits zero n (λ early. absurd (ground (arith, early)))
    wait_from-Waits (suc fuel) n h =
        turn-Waits (suc fuel) n (λ early. wait_from-Waits fuel (suc n) (omega (arith, advances n)))
