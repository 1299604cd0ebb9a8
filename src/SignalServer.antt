-- ===== src/SignalServer.antt =====
-- ALSP/io_rts.c: the server that waits for real-time signals of its sockets. A reply to `sigwaitinfo` is
-- the signal, SIGRTMIN counted as 0, and its `si_fd` and `si_band`.
pub mod Signals
mod Tests
use temp.Base.{
  ℕ, zero, suc, ◌%◌, Bool, true, false, Option, none, some, List, [], ◌∷◌, ltb, ◌==◌, if◌then◌else◌,
  get_or,
}
use temp.Base.Sys.{
  Call, M, pure, halt, unfinished, sys, ◌>>=◌, ◌>>◌, getaddrinfo, socket, bind, listen, accept,
  recv, close, getfl, setnb, getpid, sigprocmask, setsig, setown, sigwaitinfo, getsockname,
}
use temp.PollServer.{required}

-- `add_rts_socket`: whether it returns 0, and not -1.
pub add_rts_socket : ℕ → ℕ → M Bool
add_rts_socket fd i_sig = do
  flags ← sys (getfl fd)
  elim flags.ret [
    | none ↦ pure false
    | some _ ↦ do
      r ← sys (setnb fd)
      elim r.ret [
        | none ↦ pure false
        | some _ ↦ do
          s ← sys (setsig fd i_sig)
          elim s.ret [
            | none ↦ pure false
            | some _ ↦ do
              sys getpid
              o ← sys (setown fd)
              elim o.ret [ none ↦ pure false | some _ ↦ pure true ]
          ]
      ]
  ]

-- SIGRT_LISTEN_IO and SIGRT_NORM_IO, counted from SIGRTMIN.
abbrev pub sigrt_listen_io : ℕ
sigrt_listen_io = 0

abbrev pub sigrt_norm_io : ℕ
sigrt_norm_io = 1

-- A socket that its signal says to be readable.
pub take_bytes : ℕ → M (Unit {0})
take_bytes fd = do
  r ← sys (recv fd 16384)
  elim r.ret [ none ↦ pure tt | some zero ↦ do sys (close fd); pure tt | some (suc _) ↦ pure tt ]

-- The loop of `start_sigrt`, in at most `n` rounds; the other branches only print.
unfoldable pub sigrt_loop : ℕ → ℕ → M ℕ
sigrt_loop zero fd_listener = unfinished
sigrt_loop (suc n) fd_listener = do
  i_sig ← sys sigwaitinfo
  elim i_sig.ret [
    | none ↦ sigrt_loop n fd_listener
    | some zero ↦ do
      client ← sys (accept fd_listener)
      elim client.ret [
        | none ↦ pure 0
        | some fd_client ↦ do add_rts_socket fd_client sigrt_norm_io; sigrt_loop n fd_listener
      ]
    | some (suc zero) ↦ do
      if get_or i_sig.bytes 1 0 % 2 == 1 then take_bytes (get_or i_sig.bytes 0 0) else pure tt
      sigrt_loop n fd_listener
    | some (suc (suc _)) ↦ sigrt_loop n fd_listener
  ]

pub start_sigrt : ℕ → ℕ → M ℕ
start_sigrt n fd_listener = do add_rts_socket fd_listener sigrt_listen_io; sigrt_loop n fd_listener

-- `make_listener`: `none` is -1. For the port "0" it asks for the name of the socket, to print it.
pub make_listener : Bool → M (Option ℕ)
make_listener any_port = do
  required getaddrinfo
  s ← sys socket
  elim s.ret [
    | none ↦ pure none
    | some fd ↦ do
      b ← sys (bind fd)
      elim b.ret [
        | none ↦ do sys (close fd); pure none
        | some _ ↦ do
          if any_port then sys (getsockname fd) >> pure tt else pure tt
          sys (listen fd)
          pure (some fd)
      ]
  ]

-- `main`, with the number of arguments, and at most `n` rounds.
pub main : ℕ → Bool → ℕ → M ℕ
main argc any_port n =
    let serve : M ℕ = do
      required (sigprocmask 1)
      l ← make_listener any_port
      elim l [ none ↦ halt 1 | some fd ↦ start_sigrt n fd ]
    in if ltb 2 argc then halt 1 else serve
