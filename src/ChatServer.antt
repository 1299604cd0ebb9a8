-- ===== src/ChatServer.antt =====
-- sp/select/serv.c: a chat server over `select`, which sends what one client says to all.
-- test/select_serv.c is the same server with an older way to open the listener.
pub mod Table
pub mod Chat
pub mod Round
mod Skipped
pub mod Older
mod Tests
use temp.Base.{
  ℕ, zero, suc, ◌+◌, ◌-◌, Bool, true, false, ◌&&◌, ◌||◌, Option, none, some, List, [], ◌∷◌, ltb,
  ◌==◌, if◌then◌else◌, set, get_or, take, replicate, until_nul,
}
use temp.Base.Segment.{move_last}
use temp.Base.Sys.{
  Call, M, pure, halt, unfinished, crash, sys, ◌>>=◌, ◌>>◌, close, recv, send, select, accept,
  getaddrinfo, socket, bind, listen, getnameinfo,
}

-- `MAXLINE` and `MAXSOCK`
abbrev pub maxline : ℕ
maxline = 511

abbrev pub maxsock : ℕ
maxsock = 1024

-- The globals: `clisock_list` and `num_chat`. `listen_sock` is an argument.
pub record Clients : Type 0 where
  pub clisock_list : List ℕ
  pub num_chat : ℕ

abbrev pub no_clients : Clients
no_clients = record { clisock_list = replicate 1024 0; num_chat = 0 }

-- `addclient`. It stores behind the last client without a test of `num_chat`.
pub addclient : Clients → ℕ → M Clients
addclient c s = do
  r ← sys (getnameinfo s)
  elim r.ret [
    | none ↦ halt 1
    | some _ ↦
        if ltb c.num_chat maxsock
        then pure
            (record { clisock_list = set c.clisock_list c.num_chat s; num_chat = c.num_chat + 1 })
        else crash
  ]

-- `removeclient`, without its `close`.
pub without : Clients → ℕ → Clients
without c s = record {
  clisock_list = move_last 0 c.clisock_list s c.num_chat;
  num_chat = c.num_chat - 1;
}

pub removeclient : Clients → ℕ → M Clients
removeclient c s = do sys (close (get_or c.clisock_list s 0)); pure (without c s)

-- The loop of `getmax`, from `i` over `n` clients.
pub max_from : List ℕ → ℕ → ℕ → ℕ → ℕ
max_from arr i zero m = m
max_from arr i (suc n) m =
    let s = get_or arr i 0 in max_from arr (i + 1) n (if ltb m s then s else m)

pub getmax : ℕ → Clients → ℕ
getmax listen_sock c = max_from c.clisock_list 0 c.num_chat listen_sock

-- `exit_string`, and `strstr` of it in a text that ends at its first NUL.
abbrev pub exit_string : List ℕ
exit_string = b'e' ∷ b'x' ∷ b'i' ∷ b't' ∷ []

pub starts_with : List ℕ → List ℕ → Bool
starts_with [] text = true
starts_with (x ∷ xs) [] = false
starts_with (x ∷ xs) (y ∷ ys) = x == y && starts_with xs ys

pub strstr : List ℕ → List ℕ → Bool
strstr [] word = starts_with word []
strstr (x ∷ xs) word = starts_with word (x ∷ xs) || strstr xs word

-- `for (j = 0; j < num_chat; j++) send(clisock_list[j], buf, nbyte, 0);` over `n` clients from `j`.
pub send_all : List ℕ → ℕ → ℕ → List ℕ → M (Unit {0})
send_all arr j zero text = pure tt
send_all arr j (suc n) text = do sys (send (get_or arr j 0) text); send_all arr (j + 1) n text

-- FD_ISSET on what `select` left in the set.
pub isset : ℕ → List ℕ → Bool
isset f [] = false
isset f (g ∷ fds) = f == g || isset f fds

-- The branch of `main` for a client `i` that is in the set. `buf[nbyte] = 0` with `nbyte == -1`
-- writes before the buffer.
pub hear : Clients → ℕ → M Clients
hear c i = do
  r ← sys (recv (get_or c.clisock_list i 0) maxline)
  elim r.ret [
    | none ↦ crash
    | some zero ↦ removeclient c i
    | some (suc k) ↦
        let text = take (suc k) r.bytes in
        if strstr (until_nul text) exit_string
        then removeclient c i
        else do send_all c.clisock_list 0 c.num_chat text; pure c
  ]

-- The loop over the clients after `select`, in at most `n` passes. Each `continue` moves `i` on.
pub hear_loop : ℕ → Clients → ℕ → List ℕ → M Clients
hear_loop zero c i fds = if ltb i c.num_chat then unfinished else pure c
hear_loop (suc n) c i fds =
    let present : M Clients = do c' ← hear c i; hear_loop n c' (i + 1) fds
    in let absent : M Clients = hear_loop n c (i + 1) fds in
      if ltb i c.num_chat
      then if isset (get_or c.clisock_list i 0) fds then present else absent
      else pure c

-- "connected to char_server\n"
abbrev pub start_string : List ℕ
start_string =
    b'c' ∷ b'o' ∷ b'n' ∷ b'n' ∷ b'e' ∷ b'c' ∷ b't' ∷ b'e' ∷ b'd' ∷ b' ' ∷ b't' ∷ b'o' ∷ b' ' ∷ b'c'
    ∷ b'h' ∷ b'a' ∷ b'r' ∷ b'_' ∷ b's' ∷ b'e' ∷ b'r' ∷ b'v' ∷ b'e' ∷ b'r' ∷ 10 ∷ []

-- The branch of `main` for a listener in the set.
pub welcome : ℕ → Clients → M Clients
welcome listen_sock c = do
  r ← sys (accept listen_sock)
  elim r.ret [ none ↦ halt 1 | some s ↦ do c' ← addclient c s; sys (send s start_string); pure c' ]

-- One pass of `while (1)`.
pub chat_round : ℕ → Clients → M Clients
chat_round listen_sock c = do
  r ← sys (select (getmax listen_sock c + 1))
  elim r.ret [
    | none ↦ halt 1
    | some _ ↦ do
      c' ← if isset listen_sock r.bytes then welcome listen_sock c else pure c
      hear_loop c'.num_chat c' 0 r.bytes
  ]

pub rounds : ℕ → ℕ → Clients → M Clients
rounds zero listen_sock c = unfinished
rounds (suc n) listen_sock c = do c' ← chat_round listen_sock c; rounds n listen_sock c'

-- A call whose failure ends the process with EXIT_FAILURE.
abbrev pub required : Call → M ℕ
required c = do r ← sys c; elim r.ret [ none ↦ halt 1 | some v ↦ pure v ]

pub tcp_listen : M ℕ
tcp_listen = do
  required getaddrinfo
  sd ← required socket
  required (bind sd)
  sys (listen sd)
  pure sd

-- `main`, with `n` rounds of its endless loop; it ends at once unless it is given one argument.
pub main : ℕ → ℕ → M Clients
main argc n =
    let serve : M Clients = do listen_sock ← tcp_listen; rounds n listen_sock no_clients
    in if argc == 2 then serve else halt 1
