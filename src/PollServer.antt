-- ===== src/PollServer.antt =====
-- ALSP/io_poll.c: the table of polled sockets, and the loop over the sockets that are ready.
-- The file compiles only with ENABLE_MSG_OOB (its other branch names a field `evnets`), so that
-- configuration is modelled. An `int` descriptor is its 32-bit pattern: -1 is 2^32 - 1.
pub mod Sockets
pub mod Dispatch
mod Tests
use temp.Base.{
  ℕ, zero, suc, ◌+◌, ◌-◌, ◌/◌, ◌%◌, ◌^◌, Bool, true, false, Option, none, some, List, [], ◌∷◌, ltb,
  ◌==◌, ◌&&◌, if◌then◌else◌, set, get_or, replicate, drop,
}
use temp.Base.Segment.{move_last}
use temp.Base.Sys.{
  M, pure, halt, unfinished, sys, ◌>>=◌, ◌>>◌, Call, close, recv, recv_oob, poll, accept,
  getaddrinfo, socket, setsockopt, bind, listen,
}

-- `MAX_FD_SOCKET`
abbrev pub max_fd_socket : ℕ
max_fd_socket = 255

abbrev pub no_fd : ℕ
no_fd = 2 ^ 32 - 1

pub record Flags : Type 0 where
  pub pollin : Bool
  pub pollpri : Bool
  pub pollerr : Bool
  pub pollnval : Bool

-- `struct pollfd`
pub record Pollfd : Type 0 where
  pub fd : ℕ
  pub events : Flags
  pub revents : Flags

abbrev no_flags : Flags
no_flags = record { pollin = false; pollpri = false; pollerr = false; pollnval = false }

-- An entry of the static array before its first use.
abbrev pub blank : Pollfd
blank = record { fd = 0; events = no_flags; revents = no_flags }

pub record Table : Type 0 where
  pub pollfds : List Pollfd
  pub cnt_fd_socket : ℕ

abbrev pub new_table : Table
new_table = record { pollfds = replicate 255 blank; cnt_fd_socket = 0 }

-- `add_socket`: the new number of sockets, or -1 if the table is full.
unfoldable pub add_socket : Table → ℕ → Option ℕ × Table
add_socket t fd =
    let n = t.cnt_fd_socket in
    let watched = record (get_or t.pollfds n blank) {
      fd = fd;
      events = record no_flags { pollin = true; pollpri = true };
    } in
    if ltb n max_fd_socket
    then (some (n + 1), record { pollfds = set t.pollfds n watched; cnt_fd_socket = n + 1 })
    else (none, t)

-- The `for` loop of `del_socket`: the first place from `i` on, of `n`, that holds `fd`.
pub find_fd : List Pollfd → ℕ → ℕ → ℕ → Option ℕ
find_fd arr fd i zero = none
find_fd arr fd i (suc n) =
    let rest = find_fd arr fd (i + 1) n in if (get_or arr i blank).fd == fd then some i else rest

-- The rest of `del_socket` once the place is known.
pub drop_entry : Table → ℕ → Table
drop_entry t i =
    let n = t.cnt_fd_socket in
    let arr = move_last blank t.pollfds i n in
    record {
      pollfds = set arr (n - 1) (record (get_or arr (n - 1) blank) { fd = no_fd });
      cnt_fd_socket = n - 1;
    }

-- `del_socket`: the place that was emptied, or -1 if no entry holds `fd`.
pub del_socket : Table → ℕ → M (Option ℕ × Table)
del_socket t fd = do
  sys (close fd)
  elim (find_fd t.pollfds fd 0 t.cnt_fd_socket) [
    | none ↦ pure (none, t)
    | some i ↦ pure (some i, drop_entry t i)
  ]

-- The `for` loop over the sockets behind the listener, after `poll`: at most `n` passes.
pub serve_loop : ℕ → Table → ℕ → ℕ → M Table
serve_loop zero t i ready = if ltb i t.cnt_fd_socket && ltb 0 ready then unfinished else pure t
serve_loop (suc n) t i ready =
    let p = get_or t.pollfds i blank in
    let readable : M Table = do
      r ← sys (recv p.fd 1024)
      elim r.ret [
        | none ↦ serve_loop n t (i + 1) (ready - 1)
        | some zero ↦ do (_, t') ← del_socket t p.fd; serve_loop n t' i (ready - 1)
        | some (suc _) ↦ serve_loop n t (i + 1) (ready - 1)
      ]
    in let urgent : M Table = do sys (recv_oob p.fd); serve_loop n t (i + 1) ready
      in let failed : M Table = serve_loop n t (i + 1) (ready - 1) in
        let silent : M Table = serve_loop n t (i + 1) ready in
        if ltb i t.cnt_fd_socket && ltb 0 ready
        then if p.revents.pollin
          then readable
          else if p.revents.pollpri
          then urgent
          else if p.revents.pollerr
          then failed
          else if p.revents.pollnval
          then failed
          else silent
        else pure t

-- The bits of a `revents` word: POLLIN 1, POLLPRI 2, POLLERR 8, POLLNVAL 32.
abbrev pub flags_of : ℕ → Flags
flags_of b = record {
  pollin = b % 2 == 1;
  pollpri = b / 2 % 2 == 1;
  pollerr = b / 8 % 2 == 1;
  pollnval = b / 32 % 2 == 1;
}

-- What `poll` writes to the entries from `i` on; an entry past the words given has no event.
pub set_revents : List Pollfd → ℕ → ℕ → List ℕ → List Pollfd
set_revents arr i zero words = arr
set_revents arr i (suc n) words =
    set_revents (set arr i (record (get_or arr i blank) { revents = flags_of (get_or words 0 0) }))
      (i + 1) n (drop 1 words)

-- The branch of `main` for a listener that is ready: `none` is `continue` with the table unchanged.
pub accept_one : Table → M Table
accept_one t = do
  r ← sys (accept (get_or t.pollfds 0 blank).fd)
  elim r.ret [
    | none ↦ pure t
    | some fd ↦ let (added, t') = add_socket t fd in elim added [ none ↦ halt 1 | some _ ↦ pure t' ]
  ]

-- One pass of `while (1)`. The sockets behind the listener are served in at most as many passes as
-- there are sockets.
pub serve_round : Table → M Table
serve_round t = do
  r ← sys (poll t.cnt_fd_socket)
  elim r.ret [
    | none ↦ halt 1
    | some ready ↦
        let t' = record t { pollfds = set_revents t.pollfds 0 t.cnt_fd_socket r.bytes } in
        if (get_or t'.pollfds 0 blank).revents.pollin
        then accept_one t'
        else serve_loop t'.cnt_fd_socket t' 1 ready
  ]

pub rounds : ℕ → Table → M Table
rounds zero t = unfinished
rounds (suc n) t = do t' ← serve_round t; rounds n t'

-- A call whose failure ends the process with EXIT_FAILURE.
abbrev pub required : Call → M ℕ
required c = do r ← sys c; elim r.ret [ none ↦ halt 1 | some v ↦ pure v ]

-- `main`, with `n` rounds of its endless loop.
pub main : ℕ → M Table
main n = do
  required getaddrinfo
  fd_listener ← required socket
  required (setsockopt fd_listener)
  required (bind fd_listener)
  sys (listen fd_listener)
  rounds n (add_socket new_table fd_listener).1
