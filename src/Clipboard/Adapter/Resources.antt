-- ===== src/Clipboard/Adapter/Resources.antt =====
-- WlClipboardAdapter::copy as a whole: what it writes, what it reports, and that it gives back what it
-- takes.
use yoru_speech.Common.{
  ℕ, suc, ◌+◌, ◌*◌, ◌≤◌, ◌==◌, ==_iff, ◌≡◌, ◌≢◌, refl, sym, ap, ◌∙◌, ◌⊎◌, inl, inr, Bool-cases,
  true, List, [], ◌∷◌, ◌++◌, Option, none, some, has_value, Text, lit, length, Extends, arith,
  append_assoc, append-nil,
}
use yoru_speech.Clipboard.Adapter.{
  Adapter, Kernel, poll_interval, Status, exited, abnormal, reaped, not_reaped, Call, pipe, fork,
  close_read, close_write, write, reap, poll, kill, sleep, write_from, write_all, WaitEnd, finished,
  timed_out, wait_from, blocks_from, exit_error, error_of, waited, parent, forked, piped, copy,
}
use yoru_speech.Clipboard.Adapter.Waiting.{
  nothing, after_call, after_calls, child_only, EndsBy, Waits, written, wait_from-Waits,
}
use yoru_speech.Clipboard.Adapter.Writing.{
  write_from-Extends, write_from-writing, AllOrStopped, write_from_all, Stuck, blocks_from-Stuck,
}

-- Where copy reports no error: everything was there, and the child was reaped with exit code 0.
-- Where it does: what went wrong.
abbrev pub Reports : Adapter → Kernel → Option Text → Type 0
Reports a k none =
    (k.pipe_error ≡ none)
    × (k.fork_error ≡ none)
    × ((i : ℕ) × ((k.rounds i).waited ≡ reaped (exited 0)))
Reports a k (some message) =
    (has_value k.pipe_error ≡ true)
    ⊎ (has_value k.fork_error ≡ true)
    ⊎ ((i : ℕ) × (status : Status) × ((k.rounds i).waited ≡ reaped status) × (status ≢ exited 0))
    ⊎ ((i : ℕ) × ((k.rounds i).waited ≡ not_reaped) × (k.started + a.timeout ≤ (k.rounds i).now))

abbrev pub Copies : Adapter → Kernel → Text → Option (Option Text × List Call) → Type 0
Copies a k text o =
    (r : Option Text × List Call) × (o ≡ some r)
    × (after_calls nothing r.1 ≡ some nothing)
    × Extends (written r.1) text
    × Reports a k r.0
    × (AllOrStopped k.writes text r.1 ⊎ (has_value r.0 ≡ true))

-- copy does not return: it has forked, and the loop over write has come to one that never returns.
abbrev Hangs : Kernel → Option (Option Text × List Call) → Type 0
Hangs k o = (k.pipe_error ≡ none) × (k.fork_error ≡ none) × (o ≡ none) × Stuck k 0

abbrev pub Ends : Adapter → Kernel → Text → Option (Option Text × List Call) → Type 0
Ends a k text o = Copies a k text o ⊎ Hangs k o

error_of-Reports :
    (a : Adapter) (k : Kernel) (end : WaitEnd)
    → k.pipe_error ≡ none
    → k.fork_error ≡ none
    → EndsBy k.rounds (k.started + a.timeout) end
    → Reports a k (error_of a end)
unfolding error_of exit_error
error_of-Reports a k timed_out p f ends = inr (inr (inr ends))
error_of-Reports a k (finished abnormal) p f (i, e) = inr (inr (inl (i, abnormal, e, λ h. cc)))
error_of-Reports a k (finished (exited code)) p f (i, e) = elim (Bool-cases (code == 127)) [
  | inl h ↦ rw h (inr (inr (inl (i, exited code, e, λ q. ground (arith, q, h)))))
  | inr h ↦ elim (Bool-cases (code == 0)) [
    | inl z ↦ rw (h, z) (p, f, (i, e ∙ ap (λ c. reaped (exited c)) ((==_iff code 0).0 z)))
    | inr z ↦ rw (h, z) (inr (inr (inl (i, exited code, e, λ q. ground (arith, q, z)))))
  ]
]

written-append :
    (calls later : List Call) → written (calls ++ later) ≡ written calls ++ written later
written-append [] later = refl
written-append (write bytes ∷ calls) later =
    ap (λ t. bytes ++ t) (written-append calls later)
    ∙ sym (append_assoc bytes (written calls) (written later))
written-append (pipe ∷ calls) later = written-append calls later
written-append (fork ∷ calls) later = written-append calls later
written-append (close_read ∷ calls) later = written-append calls later
written-append (close_write ∷ calls) later = written-append calls later
written-append (reap ∷ calls) later = written-append calls later
written-append (poll ∷ calls) later = written-append calls later
written-append (kill ∷ calls) later = written-append calls later
written-append (sleep ∷ calls) later = written-append calls later

-- The parent's calls around those of its two loops.
abbrev framed : List Call → List Call → List Call
framed writes waits = (pipe ∷ fork ∷ close_read ∷ (writes ++ close_write ∷ [])) ++ waits

written-framed :
    (writes waits : List Call) → written waits ≡ [] → written (framed writes waits) ≡ written writes
written-framed writes waits h =
    written-append (writes ++ close_write ∷ []) waits
    ∙ ap (λ t. written (writes ++ close_write ∷ []) ++ t) h
    ∙ append-nil (written (writes ++ close_write ∷ []))
    ∙ written-append writes (close_write ∷ [])
    ∙ append-nil (written writes)

framed-clean :
    (writes : ℕ → ℕ) (text : Text) (waits : List Call)
    → after_calls child_only waits ≡ some nothing
    → after_calls nothing (framed (write_all writes text) waits) ≡ some nothing
unfolding after_calls after_call write_all
framed-clean writes text waits h =
    rw (append_assoc (write_from (length text) writes 0 text) (close_write ∷ []) waits)
      (write_from-writing (length text) writes 0 text (close_write ∷ waits) ∙ h)

all_or_stopped :
    (a : Adapter) (k : Kernel) (text : Text) (waits : List Call)
    → written (framed (write_all k.writes text) waits) ≡ written (write_all k.writes text)
    → AllOrStopped k.writes text (framed (write_all k.writes text) waits)
unfolding write_all
all_or_stopped a k text waits same =
    elim (write_from_all (length text) k.writes 0 text (omega arith)) [
      | inl all ↦ inl (same ∙ all)
      | inr stopped ↦ inr stopped
    ]

waited-Copies :
    (a : Adapter) (k : Kernel) (text : Text) (o : Option (WaitEnd × List Call))
    → k.pipe_error ≡ none
    → k.fork_error ≡ none
    → Waits k.rounds (k.started + a.timeout) o
    → Copies a k text
        (waited a (pipe ∷ fork ∷ close_read ∷ (write_all k.writes text ++ close_write ∷ [])) o)
unfolding waited write_all
waited-Copies a k text o p f ((end, waits), e, clean, silent, ends) =
    let same : written (framed (write_all k.writes text) waits)
        ≡ written (write_all k.writes text) =
      written-framed (write_all k.writes text) waits silent in
    let (rest, x) = write_from-Extends (length text) k.writes 0 text in
    rw e (
      (error_of a end, framed (write_all k.writes text) waits),
      refl,
      framed-clean k.writes text waits clean,
      (rest, x ∙ ap (λ t. t ++ rest) (sym same)),
      error_of-Reports a k end p f ends,
      inl (all_or_stopped a k text waits same),
    )

module _ (fuel : ℕ) (a : Adapter) (k : Kernel) (text : Text) where
  forked-Ends :
      (o : Option Text)
      → k.pipe_error ≡ none
      → k.fork_error ≡ o
      → Waits k.rounds (k.started + a.timeout) (wait_from fuel k.rounds 0 (k.started + a.timeout))
      → Ends a k text (forked fuel a k text o)
  unfolding forked parent after_calls after_call
  forked-Ends none p f waits = elim (Bool-cases (blocks_from (length text) k 0 text)) [
    | inl stuck ↦ rw stuck (inr (p, f, refl, blocks_from-Stuck (length text) k 0 text stuck))
    | inr free ↦
        rw free (
          inl
            (waited-Copies a k text (wait_from fuel k.rounds 0 (k.started + a.timeout)) p f waits))
  ]
  forked-Ends (some error) p f waits = inl (
    (some (lit "failed to fork: " ++ error), pipe ∷ close_read ∷ close_write ∷ []),
    refl,
    refl,
    (text, refl),
    inr (inl (ap has_value f)),
    inr refl,
  )

  piped-Ends :
      (o : Option Text)
      → k.pipe_error ≡ o
      → Waits k.rounds (k.started + a.timeout) (wait_from fuel k.rounds 0 (k.started + a.timeout))
      → Ends a k text (piped fuel a k text o)
  unfolding piped after_calls after_call
  piped-Ends none p waits = forked-Ends k.fork_error p refl waits
  piped-Ends (some error) p waits = inl (
    (some (lit "failed to create pipe: " ++ error), []),
    refl,
    refl,
    (text, refl),
    inl (ap has_value p),
    inr refl,
  )

-- If the clock moves on by kPollInterval with every turn, and copy has fuel for one turn more than the
-- timeout has intervals, copy returns, unless it forked a child and, after writes that each
-- took something, came to a write that never returns. When it returns it holds nothing: both ends of the pipe are closed, each
-- once, and a child that was forked is reaped, and is not waited for or killed after that. What was
-- written is a prefix of the text; if no error is reported, it is all of it, or a write took nothing.
-- No error means that the child was reaped with exit code 0; an error, that pipe or fork failed, the
-- child ended otherwise, or it was still running at the deadline.
pub copy_lem :
    (fuel : ℕ) (a : Adapter) (k : Kernel) (text : Text)
    → a.timeout ≤ fuel * poll_interval
    → k.started ≤ (k.rounds 0).now
    → ((i : ℕ) → (k.rounds i).now + poll_interval ≤ (k.rounds (suc i)).now)
    → Ends a k text (copy (suc fuel) a k text)
unfolding copy
copy_lem fuel a k text enough started advances =
    piped-Ends (suc fuel) a k text k.pipe_error refl
      (wait_from-Waits k.rounds (k.started + a.timeout) advances fuel 0 (omega arith))
