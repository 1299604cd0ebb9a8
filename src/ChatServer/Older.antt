-- ===== src/ChatServer/Older.antt =====
-- test/select_serv.c: the chat server of sp/select/serv.c with another greeting, and with a listener that is
-- opened without `getaddrinfo`. Its loop over the clients is the same.
use temp.Base.{ℕ, zero, suc, ◌+◌, none, some, List, [], ◌∷◌, ◌==◌, if◌then◌else◌}
use temp.Base.Sys.{
  M, pure, halt, unfinished, sys, ◌>>=◌, ◌>>◌, accept, send, select, socket, bind, listen,
}
use temp.ChatServer.{Clients, no_clients, addclient, getmax, isset, hear_loop, required}

-- "connected to server\n"
abbrev pub older_string : List ℕ
older_string =
    b'c' ∷ b'o' ∷ b'n' ∷ b'n' ∷ b'e' ∷ b'c' ∷ b't' ∷ b'e' ∷ b'd' ∷ b' ' ∷ b't' ∷ b'o' ∷ b' ' ∷ b's'
    ∷ b'e' ∷ b'r' ∷ b'v' ∷ b'e' ∷ b'r' ∷ 10 ∷ []

pub older_welcome : ℕ → Clients → M Clients
older_welcome listen_sock c = do
  r ← sys (accept listen_sock)
  elim r.ret [ none ↦ halt 1 | some s ↦ do c' ← addclient c s; sys (send s older_string); pure c' ]

-- One pass of `while (1)`.
pub older_round : ℕ → Clients → M Clients
older_round listen_sock c = do
  r ← sys (select (getmax listen_sock c + 1))
  elim r.ret [
    | none ↦ halt 1
    | some _ ↦ do
      c' ← if isset listen_sock r.bytes then older_welcome listen_sock c else pure c
      hear_loop c'.num_chat c' 0 r.bytes
  ]

pub older_rounds : ℕ → ℕ → Clients → M Clients
older_rounds zero listen_sock c = unfinished
older_rounds (suc n) listen_sock c = do
  c' ← older_round listen_sock c
  older_rounds n listen_sock c'

pub older_listen : M ℕ
older_listen = do sd ← required socket; required (bind sd); sys (listen sd); pure sd

pub older_main : ℕ → ℕ → M Clients
older_main argc n =
    let serve : M Clients = do listen_sock ← older_listen; older_rounds n listen_sock no_clients
    in if argc == 2 then serve else halt 1
