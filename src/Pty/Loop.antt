-- ===== src/Pty/Loop.antt =====
-- APUE/loop.c: the copying from the standard input to a pseudo terminal, in a child, and from it to the
-- standard output.
use temp.Base.{ℕ, zero, suc, Bool, false, Option, none, some, ◌==◌, if◌then◌else◌, take}
use temp.Base.Sys.{
  Call, M, pure, halt, unfinished, sys, ◌>>=◌, ◌>>◌, read, fork, kill, getppid, sigaction,
  sigcaught,
}
use temp.Rwn.{writen}

-- A call whose failure ends the process by `err_sys`.
abbrev pub required : Call → M ℕ
required c = do r ← sys c; elim r.ret [ none ↦ halt 1 | some v ↦ pure v ]

-- BUFFSIZE
abbrev pub buffsize : ℕ
buffsize = 512

-- `writen(fd, buf, nread) != nread`
abbrev pub wrote : Option ℕ → ℕ → Bool
wrote none nread = false
wrote (some m) nread = m == nread

-- One of the two `for` loops, in at most `n` rounds; `failed` is what follows a failed `read`.
unfoldable pub relay : M (Unit {0}) → ℕ → ℕ → ℕ → M (Unit {0})
relay failed zero from to = unfinished
relay failed (suc n) from to = do
  r ← sys (read from buffsize)
  elim r.ret [
    | none ↦ failed
    | some zero ↦ pure tt
    | some (suc k) ↦ do
      w ← writen to (take (suc k) r.bytes) (suc k)
      if wrote w (suc k) then relay failed n from to else halt 1
  ]

-- SIGTERM
abbrev pub sigterm : ℕ
sigterm = 15

-- The child of `loop`.
pub input : ℕ → ℕ → Bool → M (Unit {0})
input n ptym ignoreeof = do
  relay (halt 1) n 0 ptym
  parent ← sys getppid
  if ignoreeof
      then pure tt
      else (do sys (kill (elim parent.ret [ none ↦ 0 | some pid ↦ pid ])); pure tt)
  halt 0

-- `loop`. The variable that the handler of SIGTERM sets is read as the reply of a call.
pub loop : ℕ → ℕ → Bool → M (Unit {0})
loop n ptym ignoreeof = do
  child ← required fork
  elim child [
    | zero ↦ input n ptym ignoreeof
    | suc k ↦ do
      required (sigaction sigterm 2)
      relay (pure tt) n ptym 1
      caught ← sys sigcaught
      elim caught.ret [ some (suc _) ↦ pure tt | _ ↦ do sys (kill (suc k)); pure tt ]
  ]
