-- ===== src/Clipboard/Adapter.antt =====
-- domains/clipboard/wl_clipboard_adapter.cpp: WlClipboardAdapter::copy. What pipe, fork, write, waitpid
-- and the steady clock answer is an argument, and the parent's calls are recorded. The loop that waits
-- for the child runs on fuel; `none` means that it ran out, or that a
-- write never returns.
pub mod Waiting
pub mod Writing
pub mod Resources
use yoru_speech.Common.{
  ℕ, zero, suc, ◌+◌, leb, ◌==◌, Bool, true, false, ◌||◌, List, [], ◌∷◌, ◌++◌, Option, none, some,
  Text, lit, length, to_string, take, drop, if◌then◌else◌,
}

-- command_ and timeout_, in milliseconds.
pub record Adapter : Type 0 where
  pub command : Text
  pub timeout : ℕ

-- kPollInterval, in milliseconds.
abbrev pub poll_interval : ℕ
poll_interval = 10

-- What waitpid stores in `status`.
pub data Status : Type 0 where
  exited : ℕ → Status
  abnormal : Status

-- waitpid with WNOHANG: the child, or anything else.
pub data Waited : Type 0 where
  reaped : Status → Waited
  not_reaped : Waited

-- One turn of the waiting loop: waitpid's answer, and the clock after it.
pub record Round : Type 0 where
  pub waited : Waited
  pub now : ℕ

pub record Kernel : Type 0 where
  -- strerror, where pipe or fork fails.
  pub pipe_error : Option Text
  pub fork_error : Option Text
  -- The n-th write: how many bytes it took, or 0 for an answer that is not positive.
  pub writes : ℕ → ℕ
  -- Whether the n-th write never returns: the child does not read, and the pipe is full.
  pub blocks : ℕ → Bool
  -- The clock before the waiting loop, and its turns.
  pub started : ℕ
  pub rounds : ℕ → Round

pub data Call : Type 0 where
  pipe fork close_read close_write : Call
  write : Text → Call
  -- waitpid that reaped the child, or did not.
  reap poll : Call
  kill sleep : Call

-- The calls of the child.
pub data ChildCall : Type 0 where
  dup_stdin close_read_end close_write_end : ChildCall
  open_null dup_stdout dup_stderr close_null : ChildCall
  exec : Text → ChildCall
  exit : ℕ → ChildCall

-- Whether /dev/null can be opened.
silence_stdio : Bool → List ChildCall
silence_stdio opens =
    if opens then open_null ∷ dup_stdout ∷ dup_stderr ∷ close_null ∷ [] else open_null ∷ []

-- execlp returns only if it fails.
child : Bool → Bool → Adapter → List ChildCall
unfolding silence_stdio
child opens executes a =
    dup_stdin
    ∷ close_read_end
    ∷ close_write_end
    ∷ (silence_stdio opens ++ (exec (a.command) ∷ (if executes then [] else exit 127 ∷ [])))

-- The loop over write: the n-th write takes at least one byte, or is the last. As many turns as there
-- are bytes are enough.
write_turn : (Text → List Call) → ℕ → Text → List Call
write_turn next zero rest = write [] ∷ []
write_turn next (suc more) rest = write (take (suc more) rest) ∷ next (drop (suc more) rest)

unfoldable pub write_from : ℕ → (ℕ → ℕ) → ℕ → Text → List Call
unfolding write_turn
write_from zero writes n rest = []
write_from (suc left) writes n [] = []
write_from (suc left) writes n (c ∷ cs) =
    write_turn (write_from left writes (suc n)) (writes n) (c ∷ cs)

unfoldable pub write_all : (ℕ → ℕ) → Text → List Call
unfolding write_from
write_all writes text = write_from (length text) writes 0 text

-- Whether that loop comes to a write that never returns.
blocks_turn : (Text → Bool) → ℕ → Text → Bool
blocks_turn next zero rest = false
blocks_turn next (suc more) rest = next (drop (suc more) rest)

unfoldable pub blocks_from : ℕ → Kernel → ℕ → Text → Bool
unfolding blocks_turn
blocks_from zero k n rest = false
blocks_from (suc left) k n [] = false
blocks_from (suc left) k n (c ∷ cs) =
    k.blocks n || blocks_turn (blocks_from left k (suc n)) (k.writes n) (c ∷ cs)

pub data WaitEnd : Type 0 where
  finished : Status → WaitEnd
  timed_out : WaitEnd

noted : List Call → Option (WaitEnd × List Call) → Option (WaitEnd × List Call)
noted calls none = none
noted calls (some (end, later)) = some (end, calls ++ later)

-- The waiting loop from its n-th turn on.
unfoldable pub wait_from : ℕ → (ℕ → Round) → ℕ → ℕ → Option (WaitEnd × List Call)
unfolding noted
wait_from zero rounds n deadline = none
wait_from (suc fuel) rounds n deadline =
    let later = noted (poll ∷ sleep ∷ []) (wait_from fuel rounds (suc n) deadline) in
    let running : Option (WaitEnd × List Call) =
      if leb deadline (rounds n).now then some (timed_out, poll ∷ kill ∷ reap ∷ []) else later in
    elim ((rounds n).waited) [
      | reaped status ↦ some (finished status, reap ∷ [])
      | not_reaped ↦ running
    ]

exit_error : Adapter → ℕ → Option Text
exit_error a code =
    if code == 127
    then some (a.command ++ lit " not found")
    else if code == 0
    then none
    else some (a.command ++ lit " exited with status " ++ to_string code)

error_of : Adapter → WaitEnd → Option Text
unfolding exit_error
error_of a timed_out = some (a.command ++ lit " timed out")
error_of a (finished abnormal) = some (a.command ++ lit " terminated abnormally")
error_of a (finished (exited code)) = exit_error a code

waited : Adapter → List Call → Option (WaitEnd × List Call) → Option (Option Text × List Call)
unfolding error_of
waited a calls none = none
waited a calls (some (end, later)) = some (error_of a end, calls ++ later)

parent : ℕ → Adapter → Kernel → Text → Option (Option Text × List Call)
unfolding waited blocks_from
parent fuel a k text =
    if blocks_from (length text) k 0 text
    then none
    else waited a (pipe ∷ fork ∷ close_read ∷ (write_all k.writes text ++ close_write ∷ []))
        (wait_from fuel k.rounds 0 (k.started + a.timeout))

forked : ℕ → Adapter → Kernel → Text → Option Text → Option (Option Text × List Call)
unfolding parent
forked fuel a k text none = parent fuel a k text
forked fuel a k text (some error) =
    some (some (lit "failed to fork: " ++ error), pipe ∷ close_read ∷ close_write ∷ [])

piped : ℕ → Adapter → Kernel → Text → Option Text → Option (Option Text × List Call)
unfolding forked
piped fuel a k text none = forked fuel a k text k.fork_error
piped fuel a k text (some error) = some (some (lit "failed to create pipe: " ++ error), [])

-- The result, with an error as its message, and the parent's calls.
unfoldable pub copy : ℕ → Adapter → Kernel → Text → Option (Option Text × List Call)
unfolding piped
copy fuel a k text = piped fuel a k text k.pipe_error
