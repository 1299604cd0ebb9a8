-- ===== src/ChildPool.antt =====
-- ALSP/io_signalfd_chld.c: a parent that takes SIGCHLD from a descriptor and replaces the children that have
-- ended. A reply to a `read` of such a descriptor has the number of the signal in its bytes, and one to
-- `waitid` the process and the code; 0 for the process says that no child has changed.
pub mod Refork
mod Tests
use temp.Base.{
  ℕ, zero, suc, Bool, true, false, ◌||◌, Option, none, some, List, [], ◌∷◌, ◌==◌, if◌then◌else◌,
  get_or,
}
use temp.Base.Sys.{
  Call, M, pure, halt, unfinished, sys, ◌>>=◌, ◌>>◌, sigprocmask, signalfd, fork, read, waitid,
}

-- A failure ends the process by `handle_error`.
abbrev pub required : Call → M ℕ
required c = do r ← sys c; elim r.ret [ none ↦ halt 1 | some v ↦ pure v ]

-- sizeof(struct signalfd_siginfo)
abbrev pub sizeof_info : ℕ
sizeof_info = 128

-- SIGUSR1, SIGTERM and SIGCHLD
abbrev pub sigusr1 : ℕ
sigusr1 = 10

abbrev pub sigterm : ℕ
sigterm = 15

abbrev pub sigchld : ℕ
sigchld = 17

-- A `read` of one signal, which must be whole.
abbrev pub read_signal : ℕ → M ℕ
read_signal sfd = do
  r ← sys (read sfd sizeof_info)
  elim r.ret [
    | none ↦ halt 1
    | some n ↦ if n == sizeof_info then pure (get_or r.bytes 0 0) else halt 1
  ]

-- The loop of a child, in at most `n` passes: SIGUSR1 only prints.
unfoldable pub child_loop : ℕ → ℕ → M (Unit {0})
child_loop zero sfd = unfinished
child_loop (suc n) sfd = do
  signo ← read_signal sfd
  let again = child_loop n sfd
  if signo == sigusr1 then again else if signo == sigterm then halt 0 else halt 1

-- `start_child`: the parent returns.
unfoldable pub start_child : ℕ → ℕ → M (Unit {0})
start_child n sfd = do
  r ← sys fork
  elim r.ret [ none ↦ halt 1 | some zero ↦ child_loop n sfd | some (suc _) ↦ pure tt ]

-- CLD_EXITED, CLD_KILLED and CLD_DUMPED are 1, 2 and 3; the child is gone.
abbrev pub is_gone : ℕ → Bool
is_gone code = code == 1 || (code == 2 || code == 3)

-- The loop over `waitid`, in at most `n` passes. `is_refork` is not set back between two children.
unfoldable pub reap_loop : ℕ → ℕ → Bool → M (Unit {0})
reap_loop zero sfd is_refork = unfinished
reap_loop (suc n) sfd is_refork = do
  r ← sys waitid
  let pid = get_or r.bytes 0 0
  let refork = is_gone (get_or r.bytes 1 0) || is_refork
  elim r.ret [
    | none ↦ pure tt
    | some _ ↦ elim pid [
      | zero ↦ pure tt
      | suc _ ↦ do if refork then start_child n sfd else pure tt; reap_loop n sfd refork
    ]
  ]

-- One pass of the loop of `main`.
unfoldable pub parent_pass : ℕ → ℕ → ℕ → M (Unit {0})
parent_pass n sfd_parent sfd_child = do
  signo ← read_signal sfd_parent
  if signo == sigchld then reap_loop n sfd_child false else pure tt

unfoldable pub parent_loop : ℕ → ℕ → ℕ → M (Unit {0})
parent_loop zero sfd_parent sfd_child = unfinished
parent_loop (suc n) sfd_parent sfd_child = do
  parent_pass n sfd_parent sfd_child
  parent_loop n sfd_parent sfd_child

-- MAX_POOL, and the loop that makes the pool.
abbrev pub max_pool : ℕ
max_pool = 3

unfoldable pub make_pool : ℕ → ℕ → ℕ → M (Unit {0})
make_pool n sfd zero = pure tt
make_pool n sfd (suc i) = do start_child n sfd; make_pool n sfd i

pub main : ℕ → M (Unit {0})
main n = do
  required (sigprocmask 1)
  required (sigprocmask 1)
  sfd_child ← required signalfd
  sfd_parent ← required signalfd
  make_pool n sfd_child max_pool
  parent_loop n sfd_parent sfd_child
