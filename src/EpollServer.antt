-- ===== src/EpollServer.antt =====
-- ALSP/io_epoll.c: the server that waits for its connections with epoll, without timers.
pub mod Watch
mod Tests
use temp.Base.{
  ℕ, zero, suc, ◌/◌, ◌%◌, Bool, true, false, Option, none, some, List, [], ◌∷◌, ltb, ◌==◌,
  if◌then◌else◌, get_or, drop,
}
use temp.Base.Sys.{
  Call, Errno, M, pure, halt, unfinished, sys, ◌>>=◌, ◌>>◌, getaddrinfo, socket, setsockopt, bind,
  listen, epoll_create, malloc, epoll_add, epoll_del, epoll_wait, accept, recv, recv_oob, close,
  getfl, setnb,
}

-- `add_ev` and `del_ev`: whether they return 0, and not -1.
pub add_ev : ℕ → ℕ → M Bool
add_ev efd fd = do r ← sys (epoll_add efd fd); elim r.ret [ none ↦ pure false | some _ ↦ pure true ]

pub del_ev : ℕ → ℕ → M Bool
del_ev efd fd = do
  r ← sys (epoll_del efd fd)
  elim r.ret [ none ↦ pure false | some _ ↦ do sys (close fd); pure true ]

-- ADD_EV and DEL_EV.
pub checked : M Bool → M (Unit {0})
checked m = do ok ← m; if ok then pure tt else halt 1

-- `fcntl_setnb`: `none` is 0.
pub fcntl_setnb : ℕ → M (Option Errno)
fcntl_setnb fd = do
  sys (getfl fd)
  r ← sys (setnb fd)
  elim r.ret [ none ↦ pure (some r.errno) | some _ ↦ pure none ]

-- The loop over `accept`, in at most `n` passes: every failure ends it.
unfoldable pub accept_loop : ℕ → ℕ → ℕ → M (Unit {0})
accept_loop zero efd fd_listener = unfinished
accept_loop (suc n) efd fd_listener = do
  r ← sys (accept fd_listener)
  elim r.ret [
    | none ↦ pure tt
    | some fd ↦ do fcntl_setnb fd; checked (add_ev efd fd); accept_loop n efd fd_listener
  ]

-- A connection that can be read.
pub receive : ℕ → ℕ → M (Unit {0})
receive efd fd = do
  r ← sys (recv fd 1024)
  elim r.ret [ none ↦ pure tt | some zero ↦ checked (del_ev efd fd) | some (suc _) ↦ pure tt ]

-- An entry of `ep_events`, by the bits on which the program acts.
pub record Event : Type 0 where
  pub epollin : Bool
  pub epollpri : Bool
  pub fd : ℕ

-- One pass of the loop over the events. The branches for EPOLLERR and for other events only print.
pub handle_event : ℕ → ℕ → ℕ → Event → M (Unit {0})
handle_event n efd fd_listener ev =
    let urgent : M (Unit {0}) = do sys (recv_oob ev.fd); pure tt
    in if ev.epollin
      then if ev.fd == fd_listener then accept_loop n efd fd_listener else receive efd ev.fd
      else if ev.epollpri
      then urgent
      else pure tt

unfoldable pub handle_events : ℕ → ℕ → ℕ → List Event → M (Unit {0})
handle_events n efd fd_listener [] = pure tt
handle_events n efd fd_listener (ev ∷ evs) = do
  handle_event n efd fd_listener ev
  handle_events n efd fd_listener evs

-- What `epoll_wait` writes: the bits (EPOLLIN 1, EPOLLPRI 2) and the descriptor of each event.
pub events_of : List ℕ → ℕ → List Event
events_of words zero = []
events_of words (suc n) =
    record {
      epollin = get_or words 0 0 % 2 == 1;
      epollpri = get_or words 0 0 / 2 % 2 == 1;
      fd = get_or words 1 0;
    }
    ∷ events_of (drop 2 words) n

-- `while (1)` of `main`, in `n` rounds. A failed `epoll_wait` gives no event.
unfoldable pub rounds : ℕ → ℕ → ℕ → M (Unit {0})
rounds zero efd fd_listener = unfinished
rounds (suc n) efd fd_listener = do
  r ← sys (epoll_wait efd)
  handle_events n efd fd_listener (elim r.ret [ none ↦ [] | some k ↦ events_of r.bytes k ])
  rounds n efd fd_listener

-- A call whose failure ends the process with EXIT_FAILURE.
abbrev pub required : Call → M ℕ
required c = do r ← sys c; elim r.ret [ none ↦ halt 1 | some v ↦ pure v ]

-- `main` once the listener is there.
pub watch : ℕ → ℕ → M (Unit {0})
watch n fd_listener = do
  fcntl_setnb fd_listener
  required (bind fd_listener)
  sys (listen fd_listener)
  efd ← required epoll_create
  required (malloc 256)
  checked (add_ev efd fd_listener)
  rounds n efd fd_listener

pub main : ℕ → ℕ → M (Unit {0})
main argc n =
    let serve : M (Unit {0}) = do
      required getaddrinfo
      fd_listener ← required socket
      required (setsockopt fd_listener)
      watch n fd_listener
    in if ltb 2 argc then halt 1 else serve
