-- ===== src/NonblockServer.antt =====
-- ALSP/io_poll_nb.c: the server of ALSP/io_poll.c with a listener that does not block, from which it takes
-- all connections that wait. The table of sockets and the loop over them are those of io_poll.c; as
-- there, the configuration with ENABLE_MSG_OOB is modelled.
pub mod Backlog
mod Tests
use temp.Base.{ℕ, zero, suc, Option, none, some, List, [], ◌∷◌, ltb, get_or, if◌then◌else◌}
use temp.Base.Sys.{
  Call, M, pure, halt, unfinished, sys, ◌>>=◌, ◌>>◌, accept, poll, getaddrinfo, socket, setsockopt,
  setnb, bind, listen,
}
use temp.PollServer.{Table, blank, new_table, add_socket, serve_loop, set_revents, required}

-- The loop over `accept`, in at most `n` passes: every failure ends it, and the result of `add_socket` is
-- not used.
unfoldable pub accept_all : ℕ → Table → M Table
accept_all zero t = unfinished
accept_all (suc n) t = do
  r ← sys (accept (get_or t.pollfds 0 blank).fd)
  elim r.ret [ none ↦ pure t | some fd ↦ accept_all n (add_socket t fd).1 ]

-- One pass of `while (1)`.
pub nonblock_round : ℕ → Table → M Table
nonblock_round n t = do
  r ← sys (poll t.cnt_fd_socket)
  elim r.ret [
    | none ↦ halt 1
    | some ready ↦
        let t' = record t { pollfds = set_revents t.pollfds 0 t.cnt_fd_socket r.bytes } in
        if (get_or t'.pollfds 0 blank).revents.pollin
        then accept_all n t'
        else serve_loop t'.cnt_fd_socket t' 1 ready
  ]

pub nonblock_rounds : ℕ → Table → M Table
nonblock_rounds zero t = unfinished
nonblock_rounds (suc n) t = do t' ← nonblock_round n t; nonblock_rounds n t'

-- `main`, with `n` rounds of its endless loop.
pub main : ℕ → M Table
main n = do
  required getaddrinfo
  fd_listener ← required socket
  required (setsockopt fd_listener)
  required (setnb fd_listener)
  required (bind fd_listener)
  sys (listen fd_listener)
  nonblock_rounds n (add_socket new_table fd_listener).1
