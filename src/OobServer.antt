-- ===== src/OobServer.antt =====
-- ALSP/inet_tcp_serv1_OOB.c: a pool of processes that receive ordinary and urgent bytes. `cum_recv` is an
-- `int`, here its 32-bit pattern; a transfer to a place before the buffer of 255 bytes, or of more bytes
-- than fit behind `cum_recv`, is a fault.
pub mod Marks
mod Tests
use temp.Base.{
  ℕ, zero, suc, ◌+◌, ◌-◌, ◌%◌, ◌^◌, Bool, true, false, Option, none, some, List, [], ◌∷◌, ltb, ◌==◌,
  if◌then◌else◌,
}
use temp.Base.Sys.{
  Call, Errno, M, pure, halt, unfinished, crash, sys, ◌>>=◌, ◌>>◌, getaddrinfo, socket, bind,
  getsockname, listen, accept, recv, recv_oob, sockatmark, close, fork,
}
use temp.EchoServer.{no_fd, max_pool, required, wait_forever}

-- sizeof(buf)
abbrev pub sizeof_buf : ℕ
sizeof_buf = 255

-- `cum_recv += ret_recv`, where -1 is the failure.
abbrev pub add_recv : ℕ → Option ℕ → ℕ
add_recv cum none = (cum + 2 ^ 32 - 1) % 2 ^ 32
add_recv cum (some k) = (cum + k) % 2 ^ 32

-- Whether `n` bytes fit into the buffer behind its first `cum` ones.
abbrev pub fits : ℕ → ℕ → Bool
fits cum n = ltb (cum + n) (sizeof_buf + 1)

-- The part behind the label WAIT_RECV: `none` is `break`, and else `cum_recv` goes on.
pub wait_recv : ℕ → ℕ → M (Option ℕ)
wait_recv cfd cum = do
  r ← if fits cum 0 then sys (recv cfd (sizeof_buf - cum)) else crash
  elim r.ret [
    | some zero ↦ do sys (close cfd); pure none
    | some (suc k) ↦ pure (some (add_recv cum (some (suc k))))
    | none ↦ pure (some (add_recv cum none))
  ]

-- The branch for the mark of urgent bytes.
pub urgent : ℕ → ℕ → M (Option ℕ)
urgent cfd cum = do
  r ← if fits cum 0 then sys (recv_oob cfd) else crash
  elim r.ret [
    | none ↦ elim r.errno [ Errno.einval ↦ wait_recv cfd cum | _ ↦ pure (some cum) ]
    | some k ↦ if fits cum k then pure (some 0) else crash
  ]

-- One pass of the inner loop. Another result of `sockatmark` only prints.
pub mark_pass : ℕ → ℕ → M (Option ℕ)
mark_pass cfd cum = do
  m ← sys (sockatmark cfd)
  elim m.ret [
    | some zero ↦ wait_recv cfd cum
    | some (suc zero) ↦ urgent cfd cum
    | _ ↦ pure (some cum)
  ]

-- The inner loop, in at most `n` passes.
unfoldable pub mark_loop : ℕ → ℕ → ℕ → M (Unit {0})
mark_loop zero cfd cum = unfinished
mark_loop (suc n) cfd cum = do
  o ← mark_pass cfd cum
  elim o [ none ↦ pure tt | some cum' ↦ mark_loop n cfd cum' ]

-- `start_child`, in at most `n` rounds.
unfoldable pub start_child : ℕ → ℕ → M (Unit {0})
start_child zero sfd = unfinished
start_child (suc n) sfd = do
  r ← sys (accept sfd)
  elim r.ret [
    | none ↦ do sys (close no_fd); start_child n sfd
    | some cfd ↦ do mark_loop n cfd 0; start_child n sfd
  ]

-- The loop of `main` that makes the pool, over what is left of it.
unfoldable pub make_pool : ℕ → ℕ → ℕ → M (Unit {0})
make_pool n fd_listener zero = pure tt
make_pool n fd_listener (suc i) = do
  pid ← sys fork
  elim pid.ret [ some zero ↦ do start_child n fd_listener; halt 0 | _ ↦ make_pool n fd_listener i ]

-- `main`, for a number of arguments, and for a port that is "0" or another.
pub main : ℕ → Bool → ℕ → M (Unit {0})
main argc any_port n =
    let serve : M (Unit {0}) = do
      required getaddrinfo
      fd_listener ← required socket
      required (bind fd_listener)
      if any_port then (do sys (getsockname fd_listener); pure tt) else pure tt
      sys (listen fd_listener)
      make_pool n fd_listener max_pool
      wait_forever n
    in if argc == 2 then serve else halt 1
