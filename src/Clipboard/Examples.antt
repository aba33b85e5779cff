-- ===== src/Clipboard/Examples.antt =====
-- A copy of five bytes in two writes, by a command that exits with 0 after two polls.
use yoru_speech.Common.{false, ℕ, suc, ◌+◌, ◌*◌, ◌≤◌, ltb, none, lit, arith, if◌then◌else◌}
use yoru_speech.Clipboard.Adapter.{Adapter, Kernel, poll_interval, reaped, not_reaped, exited, copy}
use yoru_speech.Clipboard.Adapter.Resources.{Ends, copy_lem}

abbrev adapter : Adapter
adapter = record { command = lit "wl-copy"; timeout = 500 }

abbrev kernel : Kernel
kernel = record {
  pipe_error = none;
  fork_error = none;
  writes = λ n. 3;
  blocks = λ n. false;
  started = 1000;
  rounds = λ n. record {
    waited = if ltb n 2 then not_reaped else reaped (exited 0);
    now = 1000 + n * 11;
  };
}

advances : (i : ℕ) → (kernel.rounds i).now + poll_interval ≤ (kernel.rounds (suc i)).now
advances i = omega arith

copy_example : Ends adapter kernel (lit "hello") (copy 51 adapter kernel (lit "hello"))
copy_example = copy_lem 50 adapter kernel (lit "hello") (omega arith) (omega arith) advances
