-- ===== src/Filters.antt =====
-- APUE/mycp.c, APUE/write.c, APUE/pager.c and APUE/filter.c: programs that pass on what they read. `err_sys`
-- ends the process with 1. After a successful `exec` the process is another program, and the run stays open.
pub mod Copies
pub mod Pager
mod Tests
use temp.Base.{
  ℕ, zero, suc, ◌-◌, Bool, false, Option, none, some, List, [], ◌∷◌, ◌==◌, if◌then◌else◌, take,
  drop, length, get_or, fgets_line, until_nul,
}
use temp.Base.Sys.{
  Call, M, pure, halt, unfinished, crash, sys, ◌>>=◌, ◌>>◌, read, write, getfl, setnb, clrnb, fopen,
  pipe, fork, close, fgets, ferror, waitpid, dup2, getenv, exec, signal, fputs,
}

-- A call whose failure ends the process by `err_sys`.
abbrev pub required : Call → M ℕ
required c = do r ← sys c; elim r.ret [ none ↦ halt 1 | some v ↦ pure v ]

-- Whether a call gave just this count, as in `write(...) != n`.
abbrev pub is_count : Option ℕ → ℕ → Bool
is_count none n = false
is_count (some k) n = k == n

-- BUFFSIZE of mycp.c
abbrev pub buffsize : ℕ
buffsize = 4096

-- `main` of mycp.c, in at most `n` passes.
unfoldable pub mycp_main : ℕ → M (Unit {0})
mycp_main zero = unfinished
mycp_main (suc n) = do
  r ← sys (read 0 buffsize)
  let text : ℕ → List ℕ = λ k. take k r.bytes
  elim r.ret [
    | none ↦ halt 1
    | some zero ↦ halt 0
    | some (suc k) ↦ do
      w ← sys (write 1 (text (suc k)))
      if is_count w.ret (suc k) then mycp_main n else halt 1
  ]

-- `set_fl` and `clr_fl` of write.c, for O_NONBLOCK.
pub set_fl : ℕ → M (Unit {0})
set_fl fd = do required (getfl fd); required (setnb fd); pure tt

pub clr_fl : ℕ → M (Unit {0})
clr_fl fd = do required (getfl fd); required (clrnb fd); pure tt

-- The loop of write.c over what is left of the text, in at most `n` passes: a failed `write` is tried again.
unfoldable pub write_loop : ℕ → List ℕ → M (Unit {0})
write_loop n [] = pure tt
write_loop zero (c ∷ ptr) = unfinished
write_loop (suc n) (c ∷ ptr) = do
  w ← sys (write 1 (c ∷ ptr))
  elim w.ret [
    | none ↦ write_loop n (c ∷ ptr)
    | some zero ↦ write_loop n (c ∷ ptr)
    | some (suc k) ↦ write_loop n (drop (suc k) (c ∷ ptr))
  ]

-- `main` of write.c: a failed `read` leaves nothing to write.
unfoldable pub write_main : ℕ → M (Unit {0})
write_main n = do
  r ← sys (read 0 500000)
  let text : List ℕ = elim r.ret [ none ↦ [] | some k ↦ take k r.bytes ]
  set_fl 1
  write_loop n text
  clr_fl 1
  halt 0

-- MAXLINE
abbrev pub maxline : ℕ
maxline = 4096

-- A descriptor of a pipe becomes the standard input or output, unless it is that already.
abbrev pub becomes : ℕ → ℕ → M (Unit {0})
becomes fd std =
    let move : M (Unit {0}) = do
      d ← sys (dup2 fd std)
      if is_count d.ret std then (do sys (close fd); pure tt) else halt 1
    in if fd == std then pure tt else move

-- The loop of pager.c over the lines of the file, in at most `n` passes.
unfoldable pub pager_loop : ℕ → ℕ → M (Unit {0})
pager_loop zero fd = unfinished
pager_loop (suc n) fd = do
  r ← sys (fgets maxline)
  let line = fgets_line (maxline - 1) r.bytes
  elim r.ret [
    | none ↦ pure tt
    | some _ ↦ do
      w ← sys (write fd line)
      if is_count w.ret (length line) then pager_loop n fd else halt 1
  ]

-- DEF_PAGER
abbrev pub def_pager : List ℕ
def_pager = b'/' ∷ b'b' ∷ b'i' ∷ b'n' ∷ b'/' ∷ b'l' ∷ b'e' ∷ b's' ∷ b's' ∷ []

-- What the child of pager.c does: `fd` is the end of the pipe that it reads.
pub run_pager : ℕ → M (Unit {0})
run_pager fd = do
  becomes fd 0
  g ← sys getenv
  let pager : List ℕ = elim g.ret [ none ↦ def_pager | some _ ↦ until_nul g.bytes ]
  x ← sys (exec pager)
  elim x.ret [ none ↦ halt 1 | some _ ↦ unfinished ]

-- `main` of pager.c.
pub pager_main : ℕ → List ℕ → ℕ → M (Unit {0})
pager_main argc path n =
    let go : M (Unit {0}) = do
      required (fopen path)
      p ← sys pipe
      let fd0 = get_or p.bytes 0 0
      let fd1 = get_or p.bytes 1 0
      let parent : ℕ → M (Unit {0}) = λ pid. do
        sys (close fd0)
        pager_loop n fd1
        f ← sys ferror
        elim f.ret [ some zero ↦ do sys (close fd1); required (waitpid pid); halt 0 | _ ↦ halt 1 ]
      let split : M (Unit {0}) = do
        pid ← required fork
        elim pid [ zero ↦ do sys (close fd1); run_pager fd0 | suc k ↦ parent (suc k) ]
      elim p.ret [ none ↦ halt 1 | some _ ↦ split ]
    in if argc == 2 then go else halt 1

-- The loop of filter.c: `read` may fill the whole line, and the NUL is then stored behind it.
unfoldable pub filter_loop : ℕ → ℕ → ℕ → M (Unit {0})
filter_loop zero out back = unfinished
filter_loop (suc n) out back = do
  r ← sys (fgets maxline)
  let line = fgets_line (maxline - 1) r.bytes
  let answer : M (Unit {0}) = do
    a ← sys (read back maxline)
    let print : ℕ → M (Unit {0}) = λ k. do
      o ← sys (fputs (until_nul (take k a.bytes)))
      elim o.ret [ none ↦ halt 1 | some _ ↦ filter_loop n out back ]
    elim a.ret [
      | none ↦ halt 1
      | some zero ↦ pure tt
      | some (suc k) ↦ if suc k == maxline then crash else print (suc k)
    ]
  elim r.ret [
    | none ↦ pure tt
    | some _ ↦ do w ← sys (write out line); if is_count w.ret (length line) then answer else halt 1
  ]

-- SIGPIPE
abbrev pub sigpipe : ℕ
sigpipe = 13

add2_path : List ℕ
add2_path = b'.' ∷ b'/' ∷ b'a' ∷ b'd' ∷ b'd' ∷ b'2' ∷ []

-- `main` of filter.c, with the four ends of its two pipes.
pub filter_main : ℕ → M (Unit {0})
filter_main n = do
  required (signal sigpipe)
  p ← sys pipe
  q ← sys pipe
  let parent : M (Unit {0}) = do
    sys (close (get_or p.bytes 0 0))
    sys (close (get_or q.bytes 1 0))
    filter_loop n (get_or p.bytes 1 0) (get_or q.bytes 0 0)
    f ← sys ferror
    elim f.ret [ some zero ↦ halt 0 | _ ↦ halt 1 ]
  let child : M (Unit {0}) = do
    sys (close (get_or p.bytes 1 0))
    sys (close (get_or q.bytes 0 0))
    becomes (get_or p.bytes 0 0) 0
    becomes (get_or q.bytes 1 0) 1
    x ← sys (exec add2_path)
    elim x.ret [ none ↦ halt 1 | some _ ↦ unfinished ]
  pid ← required fork
  elim pid [ zero ↦ child | suc _ ↦ parent ]
