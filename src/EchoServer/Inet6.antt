-- ===== src/EchoServer/Inet6.antt =====
-- ALSP/inet6_tcp_serv1.c: the server of inet_tcp_serv1.c for both versions of the protocol. Before it sends a
-- text back it stores a NUL over the last byte but one, which is a fault for a text of one byte.
use temp.Base.{ℕ, zero, suc, ◌≡◌, refl, Bool, none, some, List, ◌∷◌, ltb, if◌then◌else◌, take, set}
use temp.Base.Sys.{
  Call, Errno, Env, M, fault, pure, halt, unfinished, crash, sys, ◌>>=◌, ◌>>◌, getaddrinfo, socket,
  bind, getsockname, listen, fork, accept, getnameinfo, recv, send, close,
}
use temp.EchoServer.{no_fd, max_pool, required, wait_forever}

-- The inner loop of `start_child`, in at most `n` passes.
unfoldable pub serve_conn6 : ℕ → ℕ → M (Unit {0})
serve_conn6 zero cfd = unfinished
serve_conn6 (suc n) cfd = do
  r ← sys (recv cfd 40)
  elim r.ret [
    | none ↦ elim r.errno [ Errno.eintr ↦ serve_conn6 n cfd | _ ↦ pure tt ]
    | some zero ↦ do sys (close cfd); pure tt
    | some (suc zero) ↦ crash
    | some (suc (suc k)) ↦ do
      s ← sys (send cfd (set (take (suc (suc k)) r.bytes) k 0))
      elim s.ret [ none ↦ do sys (close cfd); serve_conn6 n cfd | some _ ↦ serve_conn6 n cfd ]
  ]

-- `start_child`, in at most `n` rounds.
unfoldable pub start_child6 : ℕ → ℕ → M (Unit {0})
start_child6 zero sfd = unfinished
start_child6 (suc n) sfd = do
  r ← sys (accept sfd)
  elim r.ret [
    | none ↦ do sys (close no_fd); start_child6 n sfd
    | some cfd ↦ do required (getnameinfo cfd); serve_conn6 n cfd; start_child6 n sfd
  ]

-- The loop of `main` that makes the pool.
unfoldable pub make_pool6 : ℕ → ℕ → ℕ → M (Unit {0})
make_pool6 n fd_listener zero = pure tt
make_pool6 n fd_listener (suc i) = do
  pid ← sys fork
  elim pid.ret [
    | some zero ↦ do start_child6 n fd_listener; halt 0
    | _ ↦ make_pool6 n fd_listener i
  ]

-- `main`, for a number of arguments, and for a port that is "0" or another.
pub inet6_main : ℕ → Bool → ℕ → M (Unit {0})
inet6_main argc any_port n =
    let serve : M (Unit {0}) = do
      required getaddrinfo
      fd_listener ← required socket
      required (bind fd_listener)
      if any_port then (do sys (getsockname fd_listener); pure tt) else pure tt
      sys (listen fd_listener)
      make_pool6 n fd_listener max_pool
      wait_forever n
    in if ltb 2 argc then halt 1 else serve

-- A client that sends a single byte first: the process that serves it writes before its buffer, in the
-- first pass over the connection, in any number of rounds.
one_byte_faults :
    (e : Env) (n sfd cfd k : ℕ) (h : List Call)
    → (e (accept sfd ∷ h)).ret ≡ some cfd
    → (e (getnameinfo cfd ∷ accept sfd ∷ h)).ret ≡ some k
    → (e (recv cfd 40 ∷ getnameinfo cfd ∷ accept sfd ∷ h)).ret ≡ some 1
    → start_child6 (suc (suc n)) sfd e h ≡ fault (recv cfd 40 ∷ getnameinfo cfd ∷ accept sfd ∷ h)
unfolding start_child6 serve_conn6
one_byte_faults e n sfd cfd k h a b c = rw (a, b, c) refl
