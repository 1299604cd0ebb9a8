-- ===== src/MessageQueue/Posix.antt =====
-- ALSP/posix_msq.c and ALSP/posix_msg_sigev.c. A result `none` of a function is -1.
use temp.Base.{
  ℕ, zero, suc, ◌+◌, ◌-◌, ◌%◌, ◌^◌, Option, none, some, List, ltb, ◌==◌, if◌then◌else◌, length,
  get_or, fgets_line,
}
use temp.Base.Sys.{
  Errno, M, pure, halt, unfinished, crash, sys, ◌>>=◌, ◌>>◌, feof, fgets, fopen, fclose, getchar,
  malloc, sigaction, mq_create, mq_open, mq_unlink, mq_getattr, mq_close, mq_send, mq_receive,
  mq_notify,
}

-- LEN_RBUF
abbrev pub len_rbuf : ℕ
len_rbuf = 512

-- `len_rbuf` of a line as the `size_t` that `mq_send` takes.
abbrev pub send_length : List ℕ → ℕ
send_length rbuf = (length rbuf + 2 ^ 64 - 1) % 2 ^ 64

-- The loop of `start_msq_sender`, in at most `n` passes.
unfoldable pub send_loop : ℕ → ℕ → M (Unit {0})
send_loop zero mq_fd = unfinished
send_loop (suc n) mq_fd = do
  at_end ← sys feof
  elim at_end.ret [
    | some zero ↦ do
      r ← sys (fgets len_rbuf)
      let rbuf = fgets_line (len_rbuf - 1) r.bytes
      elim r.ret [
        | none ↦ pure tt
        | some _ ↦ do
          s ← sys (mq_send mq_fd rbuf (send_length rbuf))
          elim s.ret [ none ↦ pure tt | some _ ↦ send_loop n mq_fd ]
      ]
    | _ ↦ pure tt
  ]

pub start_msq_sender : ℕ → ℕ → List ℕ → M (Option ℕ)
start_msq_sender n mq_fd srcfile = do
  f ← sys (fopen srcfile)
  elim f.ret [ none ↦ pure none | some _ ↦ do send_loop n mq_fd; sys fclose; pure (some 0) ]

-- The loop of `start_msq_receiver`, in at most `n` passes.
unfoldable pub receive_loop : ℕ → ℕ → ℕ → M (Option ℕ)
receive_loop zero mq_fd msgsize = unfinished
receive_loop (suc n) mq_fd msgsize = do
  r ← sys (mq_receive mq_fd msgsize)
  elim r.ret [ none ↦ pure none | some _ ↦ receive_loop n mq_fd msgsize ]

pub start_msq_receiver : ℕ → ℕ → M (Option ℕ)
start_msq_receiver n mq_fd = do
  a ← sys mq_getattr
  let msgsize = get_or a.bytes 0 0
  b ← sys (malloc msgsize)
  elim b.ret [ none ↦ pure none | some _ ↦ receive_loop n mq_fd msgsize ]

-- The loop of `start_msq_receiver` of posix_msg_sigev.c, with its counter `i`.
unfoldable pub notified_loop : ℕ → ℕ → ℕ → M (Option ℕ)
notified_loop zero mq_fd i = unfinished
notified_loop (suc n) mq_fd i = do
  a ← sys mq_getattr
  t ← sys (mq_notify (i + 1))
  let hear : M (Option ℕ) = do
    r ← sys (mq_receive mq_fd (get_or a.bytes 0 0))
    elim r.ret [ none ↦ pure none | some _ ↦ notified_loop n mq_fd (i + 1) ]
  elim t.ret [ some _ ↦ hear | none ↦ elim t.errno [ Errno.ebusy ↦ hear | _ ↦ pure none ] ]

-- SIGRTMIN + 2
abbrev pub sig_noti : ℕ
sig_noti = 36

pub start_notified_receiver : ℕ → ℕ → M (Option ℕ)
start_notified_receiver n mq_fd = do
  sys (sigaction sig_noti 1)
  a ← sys mq_getattr
  b ← sys (malloc (get_or a.bytes 0 0))
  elim b.ret [ none ↦ pure none | some _ ↦ notified_loop n mq_fd 0 ]

-- `main` behind the opening of the queue, for the first character of `argv[1]`, and for `argv[2]`, which may
-- be missing.
pub msq_switch : (ℕ → M (Option ℕ)) → ℕ → Option (List ℕ) → ℕ → ℕ → M ℕ
msq_switch receiver mode srcfile n mq_fd =
    let send : M ℕ = elim srcfile [
      | none ↦ crash
      | some f ↦ do start_msq_sender n mq_fd f; sys getchar; sys mq_close; pure 0
    ] in
    let receive : M ℕ = do receiver mq_fd; sys mq_close; pure 0
    in if mode == b's' then send else if mode == b'r' then receive else pure 1

-- `main`; of a queue that exists already only the opening may still fail.
pub msq_main : (ℕ → M (Option ℕ)) → ℕ → ℕ → Option (List ℕ) → ℕ → M ℕ
msq_main receiver argc mode srcfile n =
    let unlink : M ℕ = do sys mq_unlink; halt 0
    in let reopen : M ℕ = do
      o ← sys mq_open
      elim o.ret [ none ↦ halt 1 | some mq_fd ↦ msq_switch receiver mode srcfile n mq_fd ]
      in let existing : Errno → M ℕ = λ c. elim c [ Errno.eexist ↦ reopen | _ ↦ halt 1 ] in
        let begin : M ℕ = do
          r ← sys mq_create
          elim r.ret [
            | some (suc k) ↦ msq_switch receiver mode srcfile n (suc k)
            | _ ↦ existing r.errno
          ]
        in if ltb argc 2 then halt 1 else if mode == b'u' then unlink else begin

pub posix_msq_main : ℕ → ℕ → Option (List ℕ) → ℕ → M ℕ
posix_msq_main argc mode srcfile n = msq_main (start_msq_receiver n) argc mode srcfile n

pub posix_msg_sigev_main : ℕ → ℕ → Option (List ℕ) → ℕ → M ℕ
posix_msg_sigev_main argc mode srcfile n = msq_main (start_notified_receiver n) argc mode srcfile n
