-- ===== src/SystemCall.antt =====
-- APUE/system.c and APUE/posix_system.c: `system` without and with the handling of signals. A status is
-- its 32-bit pattern. After a successful `exec` the process is another program, and the run stays open.
pub mod Signals
mod Tests
use temp.Base.{
  ℕ, zero, suc, ◌+◌, ◌-◌, ◌*◌, ◌^◌, ◌%◌, ◌/◌, Option, none, some, List, [], ◌∷◌, get_or,
}
use temp.Base.Sys.{
  Call, Errno, M, pure, halt, unfinished, sys, ◌>>=◌, ◌>>◌, fork, exec, waitpid, sigaction,
  sigprocmask,
}

abbrev pub failure : ℕ
failure = 2 ^ 32 - 1

-- The status that `waitpid` stores, low byte first.
abbrev pub status_of : List ℕ → ℕ
status_of b = get_or b 0 0 + 256 * get_or b 1 0 + 65536 * get_or b 2 0 + 16777216 * get_or b 3 0

-- `while (waitpid(pid, &status, 0) < 0)`, in at most `n` passes, and the status after it.
pub wait_status : ℕ → ℕ → M ℕ
wait_status zero pid = unfinished
wait_status (suc n) pid = do
  r ← sys (waitpid pid)
  elim r.ret [
    | some _ ↦ pure (status_of r.bytes)
    | none ↦ elim r.errno [ Errno.eintr ↦ wait_status n pid | _ ↦ pure failure ]
  ]

-- The child, which runs the command.
pub run_shell : List ℕ → M ℕ
run_shell command = do r ← sys (exec command); elim r.ret [ none ↦ halt 127 | some _ ↦ unfinished ]

-- `system` of system.c; `none` is a null pointer.
pub system : ℕ → Option (List ℕ) → M ℕ
system n none = pure 1
system n (some command) = do
  pid ← sys fork
  elim pid.ret [
    | none ↦ pure failure
    | some zero ↦ run_shell command
    | some (suc k) ↦ wait_status n (suc k)
  ]

-- The signals, and what `sigaction` and `sigprocmask` are given: to ignore or block, or what was saved.
abbrev pub sigint : ℕ
sigint = 2

abbrev pub sigquit : ℕ
sigquit = 3

abbrev pub saved : ℕ
saved = 0

abbrev pub ignored : ℕ
ignored = 1

abbrev pub blocked : ℕ
blocked = 1

-- A call whose failure makes `system` return -1 at once.
pub or_fail : Call → M ℕ → M ℕ
or_fail c next = do r ← sys c; elim r.ret [ none ↦ pure failure | some _ ↦ next ]

-- The end of `system`: the dispositions and the mask are put back.
pub restore : ℕ → M ℕ
restore status =
    or_fail (sigaction sigint saved)
      (or_fail (sigaction sigquit saved) (or_fail (sigprocmask saved) (pure status)))

-- The child of posix_system.c.
pub child : List ℕ → M ℕ
child command = do
  sys (sigaction sigint saved)
  sys (sigaction sigquit saved)
  sys (sigprocmask saved)
  run_shell command

-- `fork` and what both processes do.
pub fork_and_wait : ℕ → List ℕ → M ℕ
fork_and_wait n command = do
  pid ← sys fork
  elim pid.ret [
    | none ↦ restore failure
    | some zero ↦ child command
    | some (suc k) ↦ do status ← wait_status n (suc k); restore status
  ]

-- `system` of posix_system.c.
pub posix_system : ℕ → Option (List ℕ) → M ℕ
posix_system n none = pure 1
posix_system n (some command) =
    or_fail (sigaction sigint ignored) (
      or_fail (sigaction sigquit ignored) (or_fail (sigprocmask blocked) (fork_and_wait n command)))
