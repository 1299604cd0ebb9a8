-- ===== src/ErrorLog.antt =====
-- APUE/err_routine.c and APUE/err_daemon.c: the functions that print a message and go on, or end the
-- process. The text that a format and its arguments make, and the text of an error number, are given;
-- they have no NUL. `none` as an error number stands for `errnoflag` 0.
pub mod Message
mod Tests
use temp.Base.{
  ℕ, ◌+◌, ◌-◌, Bool, true, false, Option, none, some, List, [], ◌∷◌, ◌++◌, ltb, if◌then◌else◌,
  length, take,
}
use temp.Base.Sys.{M, pure, halt, crash, sys, ◌>>=◌, ◌>>◌, write, syslog, openlog}

-- MAXLINE
abbrev pub maxline : ℕ
maxline = 4096

-- What `snprintf` with the size `n` stores of a text, before its NUL.
abbrev pub bounded : ℕ → List ℕ → List ℕ
bounded n text = take (n - 1) text

-- `strcat(buf, "\n")`: `none` if the line and its NUL do not fit in `buf`.
pub add_newline : List ℕ → Option (List ℕ)
add_newline buf = if ltb (length buf + 1) maxline then some (buf ++ (10 ∷ [])) else none

-- The line that `err_doit` and `log_doit` make in `buf`.
pub line_of : Option (List ℕ) → List ℕ → Option (List ℕ)
line_of error text =
    let buf = bounded (maxline - 1) text in
    elim error [
      | none ↦ add_newline buf
      | some reason ↦ add_newline (buf ++ bounded (maxline - length buf - 1) (b':' ∷ b' ' ∷ reason))
    ]

pub err_doit : Option (List ℕ) → List ℕ → M (Unit {0})
err_doit error text = elim (line_of error text) [
  | none ↦ crash
  | some line ↦ do sys (write 2 line); pure tt
]

pub err_ret : List ℕ → List ℕ → M (Unit {0})
err_ret reason text = err_doit (some reason) text

pub err_sys : {A : Type 0} → List ℕ → List ℕ → M A
err_sys reason text = do err_doit (some reason) text; halt 1

pub err_cont : List ℕ → List ℕ → M (Unit {0})
err_cont reason text = err_doit (some reason) text

pub err_exit : {A : Type 0} → List ℕ → List ℕ → M A
err_exit reason text = do err_doit (some reason) text; halt 1

-- The status of a process that `abort` ended is that of SIGABRT.
pub err_dump : {A : Type 0} → List ℕ → List ℕ → M A
err_dump reason text = do err_doit (some reason) text; halt 134

pub err_msg : List ℕ → M (Unit {0})
err_msg text = err_doit none text

pub err_quit : {A : Type 0} → List ℕ → M A
err_quit text = do err_doit none text; halt 1

-- The functions of err_daemon.c take `log_to_stderr` first.
pub log_open : Bool → M (Unit {0})
log_open to_stderr = if to_stderr then pure tt else (do sys openlog; pure tt)

pub log_doit : Bool → Option (List ℕ) → List ℕ → M (Unit {0})
log_doit to_stderr error text = elim (line_of error text) [
  | none ↦ crash
  | some line ↦ do if to_stderr then sys (write 2 line) else sys (syslog line); pure tt
]

pub log_ret : Bool → List ℕ → List ℕ → M (Unit {0})
log_ret to_stderr reason text = log_doit to_stderr (some reason) text

pub log_sys : {A : Type 0} → Bool → List ℕ → List ℕ → M A
log_sys to_stderr reason text = do log_doit to_stderr (some reason) text; halt 2

pub log_msg : Bool → List ℕ → M (Unit {0})
log_msg to_stderr text = log_doit to_stderr none text

pub log_quit : {A : Type 0} → Bool → List ℕ → M A
log_quit to_stderr text = do log_doit to_stderr none text; halt 2

pub log_exit : {A : Type 0} → Bool → List ℕ → List ℕ → M A
log_exit to_stderr reason text = do log_doit to_stderr (some reason) text; halt 2
