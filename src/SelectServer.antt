-- ===== src/SelectServer.antt =====
-- ALSP/io_select.c: the table of sockets, the set that `select` is given, and the loop over the sockets
-- that are ready. An `int` descriptor is its 32-bit pattern, and `fd_max`, which starts as -1, is an
-- option. An `fd_set` is the list of its members.
pub mod Removal
mod Tests
use temp.Base.{
  ℕ, zero, suc, ◌+◌, ◌-◌, ◌^◌, max, Bool, true, false, ◌||◌, Option, none, some, List, [], ◌∷◌, ltb,
  ◌==◌, if◌then◌else◌, set, get_or, replicate,
}
use temp.Base.Segment.{move_last}
use temp.Base.Sys.{
  Call, M, pure, halt, unfinished, sys, ◌>>=◌, ◌>>◌, close, recv, select, accept, getaddrinfo,
  socket, setsockopt, bind, listen, getsockname,
}

-- MAX_FD_SOCKET
abbrev pub max_fd_socket : ℕ
max_fd_socket = 255

abbrev pub no_fd : ℕ
no_fd = 2 ^ 32 - 1

pub record Sockets : Type 0 where
  pub fd_socket : List ℕ
  pub cnt_fd_socket : ℕ

-- The table after the loop at the start of `main`.
abbrev pub no_sockets : Sockets
no_sockets = record { fd_socket = replicate 255 no_fd; cnt_fd_socket = 0 }

-- `add_socket`: the new number of sockets, or -1 if the table is full.
pub add_socket : Sockets → ℕ → Option ℕ × Sockets
add_socket t fd =
    let n = t.cnt_fd_socket in
    if ltb n max_fd_socket
    then (some (n + 1), record { fd_socket = set t.fd_socket n fd; cnt_fd_socket = n + 1 })
    else (none, t)

-- The `for` loop of `del_socket`: the first place from `i` on, of `n`, that holds `fd`.
pub find_fd : List ℕ → ℕ → ℕ → ℕ → Option ℕ
find_fd arr fd i zero = none
find_fd arr fd i (suc n) =
    let rest = find_fd arr fd (i + 1) n in if get_or arr i 0 == fd then some i else rest

-- The rest of `del_socket` once the place is known.
pub drop_socket : Sockets → ℕ → Sockets
drop_socket t i =
    let n = t.cnt_fd_socket in
    record { fd_socket = set (move_last 0 t.fd_socket i n) (n - 1) no_fd; cnt_fd_socket = n - 1 }

-- `del_socket`: the place that was emptied, or -1 if no entry holds `fd`.
pub del_socket : Sockets → ℕ → M (Option ℕ × Sockets)
del_socket t fd = do
  sys (close fd)
  elim (find_fd t.fd_socket fd 0 t.cnt_fd_socket) [
    | none ↦ pure (none, t)
    | some i ↦ pure (some i, drop_socket t i)
  ]

-- The `for` loop of `mk_fds` over the `n` entries from `i` on, with `fd_max` and the set so far.
pub collect : List ℕ → ℕ → ℕ → Option ℕ × List ℕ → Option ℕ × List ℕ
collect arr i zero s = s
collect arr i (suc n) (fd_max, fds) =
    let fd = get_or arr i 0 in
    collect arr (i + 1) n (elim fd_max [ none ↦ some fd | some m ↦ some (max m fd) ], fd ∷ fds)

-- `mk_fds`: the greatest descriptor, -1 if there is none, and the set.
pub mk_fds : Sockets → Option ℕ × List ℕ
mk_fds t = collect t.fd_socket 0 t.cnt_fd_socket (none, [])

-- FD_ISSET
pub fd_isset : ℕ → List ℕ → Bool
fd_isset fd [] = false
fd_isset fd (x ∷ xs) = fd == x || fd_isset fd xs

-- The body of the `for` loop for a socket that is in the set.
pub serve_socket : Sockets → ℕ → M Sockets
serve_socket t fd = do
  r ← sys (recv fd 1024)
  elim r.ret [
    | none ↦ pure t
    | some zero ↦ do (_, t') ← del_socket t fd; pure t'
    | some (suc _) ↦ pure t
  ]

-- The `for` loop over the sockets behind the listener: at most `n` passes.
pub serve_loop : ℕ → Sockets → ℕ → List ℕ → M Sockets
serve_loop zero t i fds = if ltb i t.cnt_fd_socket then unfinished else pure t
serve_loop (suc n) t i fds =
    let fd = get_or t.fd_socket i 0 in
    let served : M Sockets = do t' ← serve_socket t fd; serve_loop n t' (i + 1) fds
    in let silent : M Sockets = serve_loop n t (i + 1) fds in
      if ltb i t.cnt_fd_socket then (if fd_isset fd fds then served else silent) else pure t

-- The branch of `main` for a listener that is ready. A connection for which the table has no room stays
-- open outside it.
pub accept_one : Sockets → ℕ → M Sockets
accept_one t fd_listener = do
  r ← sys (accept fd_listener)
  elim r.ret [ none ↦ pure t | some fd ↦ pure (add_socket t fd).1 ]

-- One pass of `while (1)`. The reply of `select` lists the descriptors that are ready.
pub serve_round : ℕ → Sockets → M Sockets
serve_round fd_listener t =
    let nfds : ℕ = elim (mk_fds t).0 [ none ↦ 0 | some m ↦ m + 1 ] in
    do
      r ← sys (select nfds)
      elim r.ret [
        | none ↦ halt 1
        | some _ ↦
            if fd_isset fd_listener r.bytes
            then accept_one t fd_listener
            else serve_loop t.cnt_fd_socket t 1 r.bytes
      ]

pub rounds : ℕ → ℕ → Sockets → M Sockets
rounds zero fd_listener t = unfinished
rounds (suc n) fd_listener t = do t' ← serve_round fd_listener t; rounds n fd_listener t'

-- A call whose failure ends the process with EXIT_FAILURE.
abbrev pub required : Call → M ℕ
required c = do r ← sys c; elim r.ret [ none ↦ halt 1 | some v ↦ pure v ]

-- `main`, with `n` rounds of its endless loop; `any_port` is the test of the port against "0".
pub main : ℕ → Bool → M Sockets
main n any_port = do
  required getaddrinfo
  fd_listener ← required socket
  required (setsockopt fd_listener)
  required (bind fd_listener)
  if any_port then (do sys (getsockname fd_listener); pure tt) else pure tt
  sys (listen fd_listener)
  rounds n fd_listener (add_socket no_sockets fd_listener).1
