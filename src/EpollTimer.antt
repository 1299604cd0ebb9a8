-- ===== src/EpollTimer.antt =====
-- ALSP/epoll_timerfd.c: an epoll server that closes a connection when its timer runs out. The list of
-- sessions pairs each socket with its timer. An `int` descriptor is its 32-bit pattern.
pub mod Sessions
pub mod Search
pub mod Events
mod Tests
use temp.Base.{
  ℕ, zero, suc, ◌+◌, ◌-◌, ◌*◌, ◌/◌, ◌%◌, ◌^◌, Bool, true, false, Option, none, some, List, [], ◌∷◌,
  ◌++◌, ltb, ◌==◌, if◌then◌else◌, set, get_or, replicate, drop,
}
use temp.Base.Segment.{move_last}
use temp.Base.Sys.{
  Call, Reply, Errno, M, pure, halt, unfinished, sys, ◌>>=◌, ◌>>◌, realloc, timerfd_create,
  timerfd_settime, epoll_add, epoll_del, epoll_wait, epoll_create, malloc, close, accept, recv,
  getfl, setnb, linger, getaddrinfo, socket, bind, listen,
}

-- FDSESSION
pub record Fdsession : Type 0 where
  pub socketfd : ℕ
  pub timerfd : ℕ
  pub timeout : ℕ

-- FDSESSIONLIST
pub record FdsList : Type 0 where
  pub n_allocated : ℕ
  pub n_used : ℕ
  pub list : List Fdsession

abbrev pub blank : Fdsession
blank = record { socketfd = 0; timerfd = 0; timeout = 0 }

abbrev pub no_sessions : FdsList
no_sessions = record { n_allocated = 0; n_used = 0; list = [] }

abbrev pub no_fd : ℕ
no_fd = 2 ^ 32 - 1

-- The `int` results: 0, -1, or an error number, which is positive.
pub data Code : Type 0 where
  success : Code
  minus_one : Code
  errno : Errno → Code

-- What `fds_new_timerfd` leaves behind: the place of the new session, or why there is none.
pub data Made : Type 0 where
  made : ℕ → Made
  failed : Errno → Made

-- The part of `fds_new_timerfd` that follows the growth of the list.
pub create_timer : FdsList → ℕ → ℕ → M (Made × FdsList)
create_timer s socketfd timeout = do
  r ← sys timerfd_create
  elim r.ret [
    | none ↦ pure (failed r.errno, s)
    | some fd ↦
        let new : Fdsession = record { socketfd = socketfd; timerfd = fd; timeout = timeout } in
        pure (made s.n_used, record s { list = set s.list s.n_used new; n_used = s.n_used + 1 })
  ]

pub fds_new_timerfd : FdsList → ℕ → ℕ → M (Made × FdsList)
fds_new_timerfd s socketfd timeout =
    let grow : M (Made × FdsList) = do
      r ← sys (realloc ((s.n_allocated + 16) * 12))
      elim r.ret [
        | none ↦ pure (failed r.errno, s)
        | some _ ↦
            create_timer
              (record s { list = s.list ++ replicate 16 blank; n_allocated = s.n_allocated + 16 })
              socketfd timeout
      ]
    in if s.n_allocated == s.n_used then grow else create_timer s socketfd timeout

pub fds_set_timerfd : Fdsession → M Code
fds_set_timerfd x = do
  r ← sys (timerfd_settime x.timerfd x.timeout)
  elim r.ret [ none ↦ pure (errno r.errno) | some _ ↦ pure success ]

-- The loop of the three functions that look a session up: the first place from `i` on, of `n`.
pub find_session : (Fdsession → Bool) → List Fdsession → ℕ → ℕ → Option ℕ
find_session test arr i zero = none
find_session test arr i (suc n) =
    let rest = find_session test arr (i + 1) n in if test (get_or arr i blank) then some i else rest

pub fds_findbysocketfd : FdsList → ℕ → Option ℕ
fds_findbysocketfd s fd = find_session (λ x. x.socketfd == fd) s.list 0 s.n_used

pub fds_findbytimerfd : FdsList → ℕ → Option ℕ
fds_findbytimerfd s fd = find_session (λ x. x.timerfd == fd) s.list 0 s.n_used

-- The removal in `fds_deletebytimerfd`.
pub drop_session : FdsList → ℕ → FdsList
drop_session s i =
    let arr = move_last blank s.list i s.n_used in
    let last = get_or arr (s.n_used - 1) blank in
    record s {
      list = set arr (s.n_used - 1) (record last { socketfd = no_fd; timerfd = no_fd });
      n_used = s.n_used - 1;
    }

pub fds_deletebytimerfd : FdsList → ℕ → Code × FdsList
fds_deletebytimerfd s timerfd = elim (fds_findbytimerfd s timerfd) [
  | none ↦ (errno Errno.enoent, s)
  | some i ↦ (success, drop_session s i)
]

pub fcntl_setnb : ℕ → M Code
fcntl_setnb fd = do
  sys (getfl fd)
  r ← sys (setnb fd)
  elim r.ret [ none ↦ pure (errno r.errno) | some _ ↦ pure success ]

pub setsockopt_linger : ℕ → M Code
setsockopt_linger fd = do
  r ← sys (linger fd)
  elim r.ret [ none ↦ pure (errno r.errno) | some _ ↦ pure success ]

-- The part of `add_ev` for a timeout above 0, once the session is made at place `i`.
pub arm_timer : ℕ → FdsList → ℕ → M (Code × FdsList)
arm_timer efd s i = do
  let x = get_or s.list i blank
  c ← fds_set_timerfd x
  elim c [
    | success ↦ do
      r ← sys (epoll_add efd x.timerfd)
      elim r.ret [ none ↦ pure (minus_one, s) | some _ ↦ pure (success, s) ]
    | minus_one ↦ pure (minus_one, s)
    | errno k ↦ pure (errno k, s)
  ]

-- The rest of `add_ev` after `fds_new_timerfd`.
pub with_timer : ℕ → Made × FdsList → M (Code × FdsList)
with_timer efd (failed k, s) = pure (errno k, s)
with_timer efd (made i, s) = arm_timer efd s i

pub add_ev : ℕ → FdsList → ℕ → ℕ → M (Code × FdsList)
add_ev efd s fd timeout =
    let timed : M (Code × FdsList) = do m ← fds_new_timerfd s fd timeout; with_timer efd m
    in do
      r ← sys (epoll_add efd fd)
      elim r.ret [
        | none ↦ pure (minus_one, s)
        | some _ ↦ if ltb 0 timeout then timed else pure (success, s)
      ]

pub del_ev : ℕ → FdsList → ℕ → M (Code × FdsList)
del_ev efd s fd = do
  r ← sys (epoll_del efd fd)
  elim r.ret [
    | none ↦ pure (errno r.errno, s)
    | some _ ↦ do
      sys (close fd)
      elim (fds_findbysocketfd s fd) [
        | none ↦ pure (minus_one, s)
        | some i ↦ do
          let timerfd = (get_or s.list i blank).timerfd
          r' ← sys (epoll_del efd timerfd)
          elim r'.ret [
            | none ↦ pure (errno r'.errno, s)
            | some _ ↦ do sys (close timerfd); pure (fds_deletebytimerfd s timerfd)
          ]
      ]
  ]

-- ADD_EV and DEL_EV: only a result of -1 ends the process.
pub checked : M (Code × FdsList) → M FdsList
checked m = do (c, s) ← m; elim c [ minus_one ↦ halt 1 | success ↦ pure s | errno _ ↦ pure s ]

-- `FDSESSION_DEFAULT_TIMEOUT`
abbrev pub default_timeout : ℕ
default_timeout = 30

-- The inner `while (1)` of `get_epollevent`, in at most `n` passes.
pub accept_loop : ℕ → ℕ → FdsList → ℕ → M FdsList
accept_loop zero efd s fd_listener = unfinished
accept_loop (suc n) efd s fd_listener = do
  r ← sys (accept fd_listener)
  elim r.ret [
    | none ↦ pure s
    | some fd ↦ do
      fcntl_setnb fd
      s' ← checked (add_ev efd s fd default_timeout)
      accept_loop n efd s' fd_listener
  ]

-- An entry of `ep_events`, by the bits that the loop tests.
pub record Event : Type 0 where
  pub epollin : Bool
  pub epollerr : Bool
  pub fd : ℕ

-- The branch of `get_epollevent` for a descriptor that is no listener. `none` is a pass that goes on,
-- and `some c` an early `return c`.
pub session_event : ℕ → FdsList → ℕ → M (Option Code × FdsList)
session_event efd s fd =
    let timed_out : ℕ → M (Option Code × FdsList) = λ i. do
      let socketfd = (get_or s.list i blank).socketfd
      setsockopt_linger socketfd
      s' ← checked (del_ev efd s socketfd)
      pure (none, s')
    in let rearm : M (Option Code × FdsList) = elim (fds_findbysocketfd s fd) [
      | none ↦ pure (some minus_one, s)
      | some i ↦ do
        c ← fds_set_timerfd (get_or s.list i blank)
        elim c [
          | success ↦ pure (none, s)
          | minus_one ↦ pure (some minus_one, s)
          | errno k ↦ pure (some (errno k), s)
        ]
    ] in
      let received : M (Option Code × FdsList) = do
        r ← sys (recv fd 1024)
        elim r.ret [
          | none ↦ pure (none, s)
          | some zero ↦ do s' ← checked (del_ev efd s fd); pure (none, s')
          | some (suc _) ↦ rearm
        ]
      in elim (fds_findbytimerfd s fd) [ some i ↦ timed_out i | none ↦ received ]

-- `get_epollevent`, with `n` passes at most for the loop of `accept`.
pub get_epollevent : ℕ → ℕ → ℕ → FdsList → List Event → M (Code × FdsList)
get_epollevent n efd fd_listener s [] = pure (success, s)
get_epollevent n efd fd_listener s (ev ∷ evs) =
    let next : FdsList → M (Code × FdsList) = λ s'. get_epollevent n efd fd_listener s' evs in
    let connect : M (Code × FdsList) = do s' ← accept_loop n efd s fd_listener; next s'
    in let serve : M (Code × FdsList) = do
      (stop, s') ← session_event efd s ev.fd
      elim stop [ some c ↦ pure (c, s') | none ↦ next s' ]
      in if ev.epollin then if ev.fd == fd_listener then connect else serve else next s

-- What `epoll_wait` writes: the bits (EPOLLIN 1, EPOLLERR 8) and the descriptor of each event.
pub events_of : List ℕ → ℕ → List Event
events_of words zero = []
events_of words (suc n) =
    record {
      epollin = get_or words 0 0 % 2 == 1;
      epollerr = get_or words 0 0 / 8 % 2 == 1;
      fd = get_or words 1 0;
    }
    ∷ events_of (drop 2 words) n

-- `while (1)` of `main`. A failed `epoll_wait` gives no event.
pub rounds : ℕ → ℕ → ℕ → FdsList → M FdsList
rounds zero efd fd_listener s = unfinished
rounds (suc n) efd fd_listener s = do
  r ← sys (epoll_wait efd)
  let evs : List Event = elim r.ret [ none ↦ [] | some k ↦ events_of r.bytes k ]
  (_, s') ← get_epollevent n efd fd_listener s evs
  rounds n efd fd_listener s'

-- A call whose failure ends the process with EXIT_FAILURE.
abbrev pub required : Call → M ℕ
required c = do r ← sys c; elim r.ret [ none ↦ halt 1 | some v ↦ pure v ]

-- `main` for at most one argument, with `n` rounds of its endless loop.
pub main : ℕ → ℕ → M FdsList
main argc n =
    let serve : M FdsList = do
      required getaddrinfo
      fd_listener ← required socket
      fcntl_setnb fd_listener
      required (bind fd_listener)
      sys (listen fd_listener)
      efd ← required epoll_create
      required (malloc 32)
      s ← checked (add_ev efd no_sessions fd_listener 0)
      rounds n efd fd_listener s
    in if ltb 2 argc then halt 1 else serve
