-- ===== src/Daemon.antt =====
-- APUE/daemonize.c: `set_cloexec`, and the steps by which a process becomes a daemon. What `err_quit`
-- and `syslog` print is left out.
pub mod Descriptors
mod Tests
use temp.Base.{
  ℕ, zero, suc, ◌+◌, ◌-◌, ◌*◌, ◌/◌, ◌%◌, Bool, true, false, ◌&&◌, Option, none, some, List, [], ◌∷◌,
  ◌==◌, if◌then◌else◌,
}
use temp.Base.Sys.{
  Call, M, pure, halt, sys, ◌>>=◌, ◌>>◌, umask, getrlimit, fork, setsid, sigaction, chdir, close,
  open_file, dup, openlog, getfd, setfd,
}

-- `set_cloexec`: FD_CLOEXEC is the lowest bit of the flags.
unfoldable pub set_cloexec : ℕ → M (Option ℕ)
set_cloexec fd = do
  r ← sys (getfd fd)
  elim r.ret [ none ↦ pure none | some val ↦ do s ← sys (setfd fd (val / 2 * 2 + 1)); pure s.ret ]

-- `for (i = 0; i < rl.rlim_max; i++) close(i);` over the `n` descriptors from `i` on.
pub close_from : ℕ → ℕ → M (Unit {0})
close_from i zero = pure tt
close_from i (suc n) = do sys (close i); close_from (i + 1) n

-- A call whose failure ends the process by `err_quit`.
abbrev pub required : Call → M ℕ
required c = do r ← sys c; elim r.ret [ none ↦ halt 1 | some v ↦ pure v ]

-- `fork`, after which only the child goes on.
pub fork_on : M (Unit {0})
fork_on = do pid ← required fork; elim pid [ zero ↦ pure tt | suc _ ↦ halt 0 ]

abbrev pub sighup : ℕ
sighup = 1

-- SIG_IGN
abbrev pub ignore : ℕ
ignore = 1

-- The number of descriptors that are closed. The condition is an assignment, `rl.rlim_max =
-- RLIM_INFINITY`, whose value is not 0, so that the limit that was asked for is lost.
abbrev pub rlim_max : ℕ
rlim_max = 1024

abbrev pub null_path : List ℕ
null_path = b'/' ∷ b'd' ∷ b'e' ∷ b'v' ∷ b'/' ∷ b'n' ∷ b'u' ∷ b'l' ∷ b'l' ∷ []

-- A descriptor that could not be had is -1.
abbrev pub is : Option ℕ → ℕ → Bool
is none n = false
is (some fd) n = fd == n

-- The standard descriptors on /dev/null.
pub reopen : M (Unit {0})
reopen = do
  fd0 ← sys (open_file null_path)
  fd1 ← sys (dup 0)
  fd2 ← sys (dup 0)
  sys openlog
  if is fd0.ret 0 && (is fd1.ret 1 && is fd2.ret 2) then pure tt else halt 1

-- A new session, and a process that is not its leader.
pub new_session : M (Unit {0})
new_session = do sys setsid; required (sigaction sighup ignore); fork_on

-- The directory `/`, and no descriptor but the standard ones.
pub let_go : M (Unit {0})
let_go = do required chdir; close_from 0 rlim_max; reopen

pub daemonize : M (Unit {0})
daemonize = do sys umask; required getrlimit; fork_on; new_session; let_go
