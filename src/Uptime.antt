-- ===== src/Uptime.antt =====
-- APUE/socket.c, APUE/server_stream.c and APUE/client_stream.c: a server that sends the uptime, and its
-- client. What `err_quit`, `err_sys`, `err_exit` and `syslog` print is left out; all but the last end the
-- process with 1. The addresses that `getaddrinfo` finds are the bytes of its reply.
pub mod Retry
pub mod Clients
mod Tests
use temp.Base.{
  ℕ, zero, suc, ◌+◌, ◌*◌, ◌-◌, Bool, ◌||◌, Option, none, some, List, [], ◌∷◌, ◌++◌, leb, ltb, ◌==◌,
  if◌then◌else◌, length, take, fgets_line,
}
use temp.Base.Sys.{
  Call, M, pure, halt, unfinished, crash, sys, ◌>>=◌, ◌>>◌, socket, connect, close, sleep, bind,
  listen, accept, popen, send, fgets, pclose, sysconf, malloc, gethostname, getaddrinfo, recv,
  write,
}
use temp.Daemon.{set_cloexec, daemonize, required}

-- MAXSLEEP
abbrev pub maxsleep : ℕ
maxsleep = 128

-- The loop of `connect_retry` from `numsec` on, in at most `k` passes.
unfoldable pub connect_loop : ℕ → ℕ → M (Option ℕ)
connect_loop zero numsec = if leb numsec maxsleep then unfinished else pure none
connect_loop (suc k) numsec =
    let rest : M (Option ℕ) = connect_loop k (numsec * 2) in
    let try : M (Option ℕ) = do
      s ← sys socket
      elim s.ret [
        | none ↦ pure none
        | some fd ↦ do
          c ← sys (connect fd)
          elim c.ret [
            | some _ ↦ pure (some fd)
            | none ↦ do
              sys (close fd)
              if leb numsec 64 then (do sys (sleep numsec); rest) else rest
          ]
      ]
    in if leb numsec maxsleep then try else pure none

-- `numsec` is 1, 2, 4 and so on: eight passes are all.
unfoldable pub connect_retry : M (Option ℕ)
connect_retry = connect_loop 8 1

-- SOCK_STREAM and SOCK_SEQPACKET
abbrev pub sock_stream : ℕ
sock_stream = 1

abbrev pub sock_seqpacket : ℕ
sock_seqpacket = 5

unfoldable pub initserver : ℕ → M (Option ℕ)
initserver type = do
  s ← sys socket
  elim s.ret [
    | none ↦ pure none
    | some fd ↦ do
      let errout : M (Option ℕ) = do sys (close fd); pure none
      let listening : M (Option ℕ) = do
        l ← sys (listen fd)
        elim l.ret [ none ↦ errout | some _ ↦ pure (some fd) ]
      b ← sys (bind fd)
      elim b.ret [
        | none ↦ errout
        | some _ ↦
            if type == sock_stream || type == sock_seqpacket then listening else pure (some fd)
      ]
  ]

-- BUFLEN
abbrev pub buflen : ℕ
buflen = 128

-- The lines of the command go to the client, in at most `n` passes.
unfoldable pub send_lines : ℕ → ℕ → M (Unit {0})
send_lines zero clfd = unfinished
send_lines (suc n) clfd = do
  r ← sys (fgets buflen)
  elim r.ret [
    | none ↦ pure tt
    | some _ ↦ do sys (send clfd (fgets_line (buflen - 1) r.bytes)); send_lines n clfd
  ]

-- The text of an error number, as it is sent when the command cannot be started: `sprintf` into `buf`.
abbrev pub error_text : List ℕ → List ℕ
error_text reason = (b'e' ∷ b'r' ∷ b'r' ∷ b'o' ∷ b'r' ∷ b':' ∷ b' ' ∷ []) ++ reason ++ (b'\n' ∷ [])

-- What comes behind the last line.
unfoldable pub end_client : ℕ → M (Unit {0})
end_client clfd = do sys pclose; sys (close clfd); pure tt

-- The part of `serve` for a client from `popen` on; `reason` is what `strerror` gives.
unfoldable pub run_command : ℕ → List ℕ → ℕ → M (Unit {0})
run_command n reason clfd = do
  p ← sys popen
  elim p.ret [
    | none ↦
        if ltb (length (error_text reason)) buflen
        then (do sys (send clfd (error_text reason)); sys (close clfd); pure tt)
        else crash
    | some _ ↦ do send_lines n clfd; end_client clfd
  ]

-- One client of `serve`.
unfoldable pub serve_client : ℕ → List ℕ → ℕ → M (Unit {0})
serve_client n reason clfd = do set_cloexec clfd; run_command n reason clfd

-- The loop of `serve`, for at most `n` clients.
unfoldable pub serve_loop : ℕ → List ℕ → ℕ → M (Unit {0})
serve_loop zero reason sockfd = unfinished
serve_loop (suc n) reason sockfd = do
  r ← sys (accept sockfd)
  elim r.ret [
    | none ↦ halt 1
    | some clfd ↦ do serve_client n reason clfd; serve_loop n reason sockfd
  ]

pub serve : ℕ → List ℕ → ℕ → M (Unit {0})
serve n reason sockfd = do set_cloexec sockfd; serve_loop n reason sockfd

-- The loop of `main` over the addresses.
pub serve_first : ℕ → List ℕ → List ℕ → M (Unit {0})
serve_first n reason [] = halt 1
serve_first n reason (aip ∷ ailist) = do
  s ← initserver sock_stream
  elim s [ none ↦ serve_first n reason ailist | some sockfd ↦ do serve n reason sockfd; halt 0 ]

-- HOST_NAME_MAX
abbrev pub host_name_max : ℕ
host_name_max = 256

-- `main` of server_stream.c
pub server_main : ℕ → List ℕ → ℕ → M (Unit {0})
server_main argc reason n =
    let go : M (Unit {0}) = do
      c ← sys sysconf
      let size : ℕ = elim c.ret [ none ↦ host_name_max | some k ↦ k ]
      required (malloc size)
      required gethostname
      daemonize
      a ← sys getaddrinfo
      elim a.ret [ none ↦ halt 1 | some _ ↦ serve_first n reason a.bytes ]
    in if argc == 1 then go else halt 1

-- `print_uptime`, in at most `n` passes.
unfoldable pub print_uptime : ℕ → ℕ → M (Unit {0})
print_uptime zero sockfd = unfinished
print_uptime (suc n) sockfd = do
  r ← sys (recv sockfd buflen)
  elim r.ret [
    | none ↦ halt 1
    | some zero ↦ pure tt
    | some (suc k) ↦ do sys (write 1 (take (suc k) r.bytes)); print_uptime n sockfd
  ]

pub ask_first : ℕ → List ℕ → M (Unit {0})
ask_first n [] = halt 1
ask_first n (aip ∷ ailist) = do
  s ← connect_retry
  elim s [ none ↦ ask_first n ailist | some sockfd ↦ do print_uptime n sockfd; halt 0 ]

-- `main` of client_stream.c
pub client_main : ℕ → ℕ → M (Unit {0})
client_main argc n =
    let go : M (Unit {0}) = do
      a ← sys getaddrinfo
      elim a.ret [ none ↦ halt 1 | some _ ↦ ask_first n a.bytes ]
    in if argc == 2 then go else halt 1
