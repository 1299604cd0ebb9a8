-- ===== src/FileTransfer/Serv.antt =====
-- `main` of sp/sock/serv/serv.c: the listening socket and the pool of processes that serve it.
use temp.Base.{
  ℕ, zero, suc, Bool, true, false, none, some, List, [], ◌∷◌, ◌==◌, ltb, if◌then◌else◌, get_or,
  length,
}
use temp.Base.Sys.{
  M, pure, halt, unfinished, sys, ◌>>=◌, ◌>>◌, getaddrinfo, socket, bind, close, getsockname,
  listen, fork, pause,
}
use temp.FileTransfer.{required, start_child}

-- MAX_POOL
abbrev pub max_pool : ℕ
max_pool = 5

-- The loop over the `n` addresses that `getaddrinfo` found: a bound socket.
pub bind_first : ℕ → M ℕ
bind_first zero = halt 1
bind_first (suc n) = do
  r ← sys socket
  elim r.ret [
    | none ↦ bind_first n
    | some fd ↦ do
      b ← sys (bind fd)
      elim b.ret [ some _ ↦ pure fd | none ↦ do sys (close fd); bind_first n ]
  ]

-- The loop that makes the pool, over what is left of it: the parent returns, and a child, which serves
-- at most `n` rounds, ends the process.
pub make_pool : ℕ → ℕ → ℕ → M (Unit {0})
make_pool n fd_listener zero = pure tt
make_pool n fd_listener (suc i) = do
  pid ← sys fork
  elim pid.ret [ some zero ↦ do start_child n fd_listener; halt 0 | _ ↦ make_pool n fd_listener i ]

-- `for (;;) pause();`
pub wait_forever : ℕ → M ℕ
wait_forever zero = unfinished
wait_forever (suc n) = do sys pause; wait_forever n

-- `!strncmp(port, "0", strlen(port))`: the port is empty or is "0".
pub is_any_port : List ℕ → Bool
is_any_port [] = true
is_any_port (c ∷ []) = c == b'0'
is_any_port (c ∷ d ∷ cs) = false

-- The server with the port given, once the number of arguments is checked.
pub serve : ℕ → List ℕ → M ℕ
serve n port = do
  addresses ← required getaddrinfo
  fd_listener ← bind_first addresses
  if is_any_port port then (do sys (getsockname fd_listener); pure tt) else pure tt
  sys (listen fd_listener)
  make_pool n fd_listener max_pool
  wait_forever n

pub main : ℕ → List (List ℕ) → M ℕ
main n argv =
    if ltb 2 (length argv)
    then halt 1
    else if length argv == 2
    then serve n (get_or argv 1 [])
    else serve n (b'0' ∷ [])
