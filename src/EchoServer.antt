-- ===== src/EchoServer.antt =====
-- ALSP/inet_tcp_serv1.c, ALSP/inet6_tcp_serv1.c and ALSP/unix_tcp_serv.c: a pool of processes that send
-- back what they receive. `start_child` is the same in the first and the third, and stands here once.
pub mod Echo
pub mod Inet6
mod Tests
use temp.Base.{
  ℕ, zero, suc, ◌^◌, ◌-◌, Bool, Option, none, some, List, [], ◌∷◌, ltb, ◌==◌, if◌then◌else◌, take,
}
use temp.Base.Sys.{
  Call, Errno, M, pure, halt, unfinished, sys, ◌>>=◌, ◌>>◌, socket, bind, getsockname, listen, fork,
  pause, accept, recv, send, close, remove,
}

-- An `int` of -1 where a descriptor is expected.
abbrev pub no_fd : ℕ
no_fd = 2 ^ 32 - 1

-- The inner loop of `start_child`, in at most `n` passes: one connection.
unfoldable pub serve_conn : ℕ → ℕ → M (Unit {0})
serve_conn zero cfd = unfinished
serve_conn (suc n) cfd = do
  r ← sys (recv cfd 40)
  elim r.ret [
    | none ↦ elim r.errno [ Errno.eintr ↦ serve_conn n cfd | _ ↦ pure tt ]
    | some zero ↦ do sys (close cfd); pure tt
    | some (suc k) ↦ do
      s ← sys (send cfd (take (suc k) r.bytes))
      elim s.ret [ none ↦ do sys (close cfd); serve_conn n cfd | some _ ↦ serve_conn n cfd ]
  ]

-- `start_child`, in at most `n` rounds.
unfoldable pub start_child : ℕ → ℕ → M (Unit {0})
start_child zero sfd = unfinished
start_child (suc n) sfd = do
  r ← sys (accept sfd)
  elim r.ret [
    | none ↦ do sys (close no_fd); start_child n sfd
    | some cfd ↦ do serve_conn n cfd; start_child n sfd
  ]

-- MAX_POOL
abbrev pub max_pool : ℕ
max_pool = 3

-- The loop of `main` that makes the pool, over what is left of it.
unfoldable pub make_pool : ℕ → ℕ → ℕ → M (Unit {0})
make_pool n fd_listener zero = pure tt
make_pool n fd_listener (suc i) = do
  pid ← sys fork
  elim pid.ret [ some zero ↦ do start_child n fd_listener; halt 0 | _ ↦ make_pool n fd_listener i ]

-- `for (;;) pause();`
unfoldable pub wait_forever : ℕ → M (Unit {0})
wait_forever zero = unfinished
wait_forever (suc n) = do sys pause; wait_forever n

-- A call whose failure ends the process with EXIT_FAILURE.
abbrev pub required : Call → M ℕ
required c = do r ← sys c; elim r.ret [ none ↦ halt 1 | some v ↦ pure v ]

-- `main` of inet_tcp_serv1.c, for a number of arguments and the port as a number.
pub main : ℕ → ℕ → ℕ → M (Unit {0})
main argc port n =
    let serve : M (Unit {0}) = do
      fd_listener ← required socket
      required (bind fd_listener)
      if port == 0 then (do sys (getsockname fd_listener); pure tt) else pure tt
      sys (listen fd_listener)
      make_pool n fd_listener max_pool
      wait_forever n
    in if ltb 2 argc then halt 1 else serve

-- PATH_UNIX_SOCKET
abbrev pub path_unix_socket : List ℕ
path_unix_socket =
    b'/' ∷ b't' ∷ b'm' ∷ b'p' ∷ b'/' ∷ b'm' ∷ b'y' ∷ b'_' ∷ b's' ∷ b'o' ∷ b'c' ∷ b'k' ∷ b'e' ∷ b't'
    ∷ []

-- `main` of unix_tcp_serv.c: an old socket file is removed first, if there is one.
pub unix_main : ℕ → M (Unit {0})
unix_main n = do
  fd_listener ← required socket
  r ← sys (remove path_unix_socket)
  let go_on : M (Unit {0}) = do
    required (bind fd_listener)
    sys (listen fd_listener)
    make_pool n fd_listener max_pool
    wait_forever n
  elim r.ret [ some _ ↦ go_on | none ↦ elim r.errno [ Errno.enoent ↦ go_on | _ ↦ halt 1 ] ]
