-- ===== src/Pty.antt =====
-- APUE/pty.c, pty_fork.c, open_pty.c and do_driver.c: a program behind a pseudo terminal. The options that
-- `getopt` finds are given, and so are the settings of terminals, of which only the calls are kept. After
-- a successful `exec` the process is another program, and the run stays open.
pub mod Loop
pub mod Relay
mod Tests
use temp.Base.{
  ℕ, zero, suc, ◌+◌, ◌-◌, Bool, true, false, ◌&&◌, ◌||◌, not, Option, none, some, List, [], ◌∷◌,
  ◌==◌, if◌then◌else◌, get_or, take,
}
use temp.Base.Sys.{
  Call, M, pure, halt, unfinished, sys, ◌>>=◌, ◌>>◌, posix_openpt, grantpt, unlockpt, ptsname,
  open_file, close, fork, setsid, dup2, tcgetattr, tcsetattr, tiocgwinsz, tiocswinsz, tty_raw,
  isatty, atexit, pipe, exec,
}
use temp.Pty.Loop.{loop, required}

-- `ptym_open`: the descriptor of a new pseudo terminal, and its name in a buffer of the size given; the
-- descriptor is closed again if a later step fails.
pub ptym_open : ℕ → M (Option (ℕ × List ℕ))
ptym_open size = do
  m ← sys posix_openpt
  elim m.ret [
    | none ↦ pure none
    | some fdm ↦ do
      let errout : M (Option (ℕ × List ℕ)) = sys (close fdm) >> pure none
      g ← sys (grantpt fdm)
      elim g.ret [
        | none ↦ errout
        | some _ ↦ do
          u ← sys (unlockpt fdm)
          elim u.ret [
            | none ↦ errout
            | some _ ↦ do
              p ← sys (ptsname fdm)
              elim p.ret [ none ↦ errout | some _ ↦ pure (some (fdm, take (size - 1) p.bytes)) ]
          ]
      ]
  ]

-- `ptys_open`, as it is without streams.
pub ptys_open : List ℕ → M (Option ℕ)
ptys_open name = do r ← sys (open_file name); pure r.ret

-- `dup2` to a standard descriptor, which must succeed.
pub dup_to : ℕ → ℕ → M (Unit {0})
dup_to fd std = do r ← required (dup2 fd std); if r == std then pure tt else halt 1

-- The child of `pty_fork`: a session of its own with the slave as its standard descriptors. `settings`
-- says whether the settings of a terminal are handed over.
pub slave : Bool → ℕ → List ℕ → M (Unit {0})
slave settings fdm name = do
  required setsid
  s ← ptys_open name
  elim s [
    | none ↦ halt 1
    | some fds ↦ do
      sys (close fdm)
      if settings then required (tcsetattr fds) else pure 0
      if settings then required (tiocswinsz fds) else pure 0
      dup_to fds 0
      dup_to fds 1
      dup_to fds 2
      if fds == 0 || (fds == 1 || fds == 2) then pure tt else (do sys (close fds); pure tt)
  ]

-- `pty_fork`: the process (0 in the child, `none` for -1) and the master, with a name of 20 bytes.
pub pty_fork : Bool → M (Option ℕ × ℕ)
pty_fork settings = do
  opened ← ptym_open 20
  elim opened [
    | none ↦ halt 1
    | some (fdm, name) ↦ do
      pid ← sys fork
      elim pid.ret [
        | none ↦ pure (none, fdm)
        | some zero ↦ do slave settings fdm name; pure (some 0, fdm)
        | some (suc k) ↦ pure (some (suc k), fdm)
      ]
  ]

-- `do_driver`: the driver runs in a child at the other end of a pipe, whose ends `fd_pipe` stores.
pub do_driver : List ℕ → M (Unit {0})
do_driver driver = do
  p ← sys pipe
  let near = get_or p.bytes 1 0
  let far = get_or p.bytes 0 0
  let tied : ℕ → M (Unit {0}) = λ fd. do
    dup_to fd 0
    dup_to fd 1
    if fd == 0 || fd == 1 then pure tt else (do sys (close fd); pure tt)
  elim p.ret [
    | none ↦ halt 1
    | some _ ↦ do
      child ← required fork
      elim child [
        | zero ↦ do
          sys (close near)
          tied far
          r ← sys (exec driver)
          elim r.ret [ none ↦ halt 1 | some _ ↦ unfinished ]
        | suc _ ↦ do sys (close far); tied near
      ]
  ]

pub record Options : Type 0 where
  pub driver : Option (List ℕ)
  pub noecho : Bool
  pub ignoreeof : Bool
  pub interactive : Bool

-- The loop over the options: a letter with its argument. `none` is an option that is not known. `-v`
-- only makes the program print.
pub parse : List (ℕ × List ℕ) → Options → Option Options
parse [] o = some o
parse ((c, optarg) ∷ rest) o =
    let o' =
      if c == b'd'
      then record o { driver = some optarg }
      else if c == b'e'
      then record o { noecho = true }
      else if c == b'i'
      then record o { ignoreeof = true }
      else if c == b'n'
      then record o { interactive = false }
      else o in
    let more = parse rest o' in if c == b'?' then none else more

pub set_noecho : ℕ → M (Unit {0})
set_noecho fd = do required (tcgetattr fd); required (tcsetattr fd); pure tt

-- The program in the child: it comes back only if it cannot be run.
pub run_program : Bool → List ℕ → M ℕ
run_program noecho program = do
  if noecho then set_noecho 0 else pure tt
  r ← sys (exec program)
  elim r.ret [ none ↦ halt 1 | some _ ↦ unfinished ]

-- `main` once the options are known.
pub serve : ℕ → Options → List ℕ → M ℕ
serve n o program = do
  if o.interactive then required (tcgetattr 0) else pure 0
  if o.interactive then required (tiocgwinsz 0) else pure 0
  (pid, fdm) ← pty_fork o.interactive
  elim pid [
    | none ↦ halt 1
    | some zero ↦ run_program o.noecho program
    | some (suc _) ↦ do
      let drive : M (Unit {0}) = elim o.driver [ none ↦ pure tt | some d ↦ do_driver d ]
      let raw : Bool = o.interactive && (elim o.driver [ none ↦ true | some _ ↦ false ])
      if raw then required (tty_raw 0) else pure 0
      if raw then required atexit else pure 0
      drive
      loop n fdm o.ignoreeof
      halt 0
  ]

-- `main`: the options that `getopt` finds, and the arguments behind them.
pub main : ℕ → List (ℕ × List ℕ) → List (List ℕ) → M ℕ
main n opts args = do
  tty ← sys isatty
  let terminal : Bool = elim tty.ret [ none ↦ false | some zero ↦ false | some (suc _) ↦ true ]
  elim (parse opts
      (record { driver = none; noecho = false; ignoreeof = false; interactive = terminal })) [
        | none ↦ halt 1
        | some o ↦ elim args [ [] ↦ halt 1 | program ∷ _ ↦ serve n o program ]
      ]
