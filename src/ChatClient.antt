-- ===== src/ChatClient.antt =====
-- sp/select/clnt.c: the client of the chat, and the bounds of its buffer. `exit_string` and the functions
-- of the C library on texts and sets are those of the model of the server.
pub mod Bounds
mod Tests
use temp.Base.{
  until_nul, ℕ, zero, suc, ◌+◌, ◌≤◌, ◌≡◌, ◌⊎◌, inl, inr, refl, Bool, true, false, Option, none,
  some, List, [], ◌∷◌, ◌++◌, ltb, ◌==◌, if◌then◌else◌, take, length, min, arith, Bool-cases,
  Option-cases, length-append, length-take,
}
use temp.Base.Sys.{
  Call, Env, Ends, Ends-bind, M, pure, halt, crash, unfinished, sys, ◌>>=◌, ◌>>◌, getaddrinfo,
  socket, connect, select, recv, fgets, send, close,
}
use temp.ChatServer.{isset, exit_string, strstr}

-- The size of `bufall`: MAXLINE + NAME_LEN + 1
abbrev pub bufall_size : ℕ
bufall_size = 532

-- What `sprintf` writes to `bufall`.
abbrev pub prompt : List ℕ → List ℕ
prompt name = (b'[' ∷ name) ++ (b']' ∷ b' ' ∷ b':' ∷ b' ' ∷ [])

-- The branch for a readable socket: a text of `k` bytes and its NUL go behind the prompt.
pub hear : List ℕ → ℕ → M (Unit {0})
hear name s = do
  r ← sys (recv s 511)
  elim r.ret [
    | none ↦ pure tt
    | some zero ↦ pure tt
    | some (suc k) ↦ if ltb (length (prompt name) + suc k) bufall_size then pure tt else crash
  ]

-- The branch for a line from the user.
pub say : List ℕ → ℕ → M (Unit {0})
say name s = do
  r ← sys (fgets 511)
  let text = until_nul (take 510 r.bytes)
  elim r.ret [
    | none ↦ pure tt
    | some _ ↦
        if ltb (length (prompt name) + length text) bufall_size
        then (do
          sys (send s (prompt name ++ text))
          if strstr text exit_string then (do sys (close s); halt 0) else pure tt)
        else crash
  ]

-- One pass of `while (1)`.
pub chat_round : List ℕ → ℕ → M (Unit {0})
chat_round name s = do
  r ← sys (select (s + 1))
  elim r.ret [
    | none ↦ halt 1
    | some _ ↦ do
      if isset s r.bytes then hear name s else pure tt
      if isset 0 r.bytes then say name s else pure tt
  ]

pub rounds : ℕ → List ℕ → ℕ → M (Unit {0})
rounds zero name s = unfinished
rounds (suc n) name s = do chat_round name s; rounds n name s

-- A call whose failure ends the process with EXIT_FAILURE.
abbrev pub required : Call → M ℕ
required c = do r ← sys c; elim r.ret [ none ↦ halt 1 | some v ↦ pure v ]

pub tcp_connect : M ℕ
tcp_connect = do required getaddrinfo; s ← required socket; required (connect s); pure s

-- `main`, with `n` rounds of its endless loop.
pub main : ℕ → ℕ → List ℕ → M (Unit {0})
main argc n name =
    let run : M (Unit {0}) = do s ← tcp_connect; rounds n name s
    in if argc == 4 then (if ltb (length (prompt name)) bufall_size then run else crash) else halt 1
