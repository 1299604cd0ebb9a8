-- ===== src/TcpClient.antt =====
-- ALSP/tcp_cli.c, ALSP/tcp_cli_reuseaddr.c, test/echo_clnt.c and test/echo_serv.c: clients that a user drives,
-- and a server that sends back what it hears. A failure of a required call ends the process with 1.
pub mod Commands
mod Tests
use temp.Base.{
  ℕ, zero, suc, ◌+◌, ◌-◌, ◌*◌, ◌%◌, ◌^◌, min, Bool, true, false, ◌&&◌, ◌||◌, Option, none, some,
  List, [], ◌∷◌, leb, ◌==◌, if◌then◌else◌, take, until_nul, fgets_line,
}
use temp.Base.History.{same_text}
use temp.Base.Sys.{
  Call, M, pure, halt, unfinished, crash, sys, ◌>>=◌, ◌>>◌, getaddrinfo, socket, getfl, setnb,
  connect, select, getsockopt, getline, send, send_oob, setsockopt, bind, getsockname, getnameinfo,
  getchar, close, fgets, recv, listen, accept, write,
}
use temp.EchoServer.{required}

-- `atoi`: what `strtol` reads, cut to an `int`, as its 32-bit pattern.
abbrev pub is_space : ℕ → Bool
is_space c = c == 32 || (leb 9 c && leb c 13)

abbrev pub digits_from : ℕ → List ℕ → ℕ
digits_from v [] = v
digits_from v (c ∷ cs) =
    let rest = digits_from (v * 10 + (c - b'0')) cs in if leb b'0' c && leb c b'9' then rest else v

abbrev pub signed_from : List ℕ → ℕ
signed_from [] = 0
signed_from (c ∷ cs) =
    if c == b'-'
    then (2 ^ 64 - min (digits_from 0 cs) (2 ^ 63)) % 2 ^ 32
    else if c == b'+'
    then min (digits_from 0 cs) (2 ^ 63 - 1) % 2 ^ 32
    else min (digits_from 0 (c ∷ cs)) (2 ^ 63 - 1) % 2 ^ 32

unfoldable pub atoi : List ℕ → ℕ
atoi [] = 0
atoi (c ∷ cs) = let rest = atoi cs in if is_space c then rest else signed_from (c ∷ cs)

-- "1.abcde" and "2.fghij"
abbrev pub str_ordinary : List ℕ
str_ordinary = b'1' ∷ b'.' ∷ b'a' ∷ b'b' ∷ b'c' ∷ b'd' ∷ b'e' ∷ []

abbrev pub str_oob : List ℕ
str_oob = b'2' ∷ b'.' ∷ b'f' ∷ b'g' ∷ b'h' ∷ b'i' ∷ b'j' ∷ []

-- The loop of tcp_cli.c, in at most `n` passes; `set` tells whether `p_sbuf` has a value yet, which the
-- branch for any other number prints. The end of the input is EXIT_FAILURE, and 0 is EXIT_SUCCESS.
unfoldable pub command_loop : ℕ → ℕ → Bool → M ℕ
command_loop zero fd set = unfinished
command_loop (suc n) fd set = do
  r ← sys getline
  let command = atoi (until_nul r.bytes)
  let ordinary : M ℕ = do sys (send fd str_ordinary); command_loop n fd true
  let urgent : M ℕ = do sys (send_oob fd str_oob); command_loop n fd true
  let again : M ℕ = command_loop n fd set
  elim r.ret [
    | none ↦ pure 1
    | some _ ↦ elim command [
      | zero ↦ halt 0
      | suc zero ↦ ordinary
      | suc (suc zero) ↦ urgent
      | suc (suc (suc _)) ↦ if set then again else crash
    ]
  ]

-- `main` of tcp_cli.c; `started` tells whether `errno` is EINPROGRESS behind `connect`.
pub tcp_cli_main : ℕ → Bool → ℕ → M ℕ
tcp_cli_main argc started n =
    let go : M ℕ = do
      required getaddrinfo
      fd ← required socket
      sys (getfl fd)
      required (setnb fd)
      sys (connect fd)
      let talk : M ℕ = do
        required (select (fd + 1))
        required (getsockopt fd)
        command_loop n fd false
      if started then talk else halt 1
    in if argc == 3 then go else halt 1

-- The loop of tcp_cli_reuseaddr.c, in at most `n` passes, for an argument that is '0' or not; `once` is
-- `flag_once`.
unfoldable pub reuse_loop : ℕ → Bool → Bool → M (Unit {0})
reuse_loop zero off once = unfinished
reuse_loop (suc n) off once = do
  required getaddrinfo
  fd ← required socket
  if off then pure tt else (do required (setsockopt fd); pure tt)
  if once then (do required (bind fd); pure tt) else pure tt
  required (connect fd)
  if once then pure tt else (do required (getsockname fd); required (getnameinfo fd); pure tt)
  sys getchar
  sys (close fd)
  sys getchar
  reuse_loop n off true

pub reuse_main : ℕ → Bool → ℕ → M (Unit {0})
reuse_main argc off n = if argc == 4 then reuse_loop n off false else halt 1

-- BUFSIZ
abbrev pub bufsiz : ℕ
bufsiz = 8192

-- The loop of echo_clnt.c, in at most `n` passes: a failed `fgets` leaves the last text in `msg`, and a
-- failed `recv` stores before it.
unfoldable pub echo_loop : ℕ → ℕ → List ℕ → M (Unit {0})
echo_loop zero sock msg = unfinished
echo_loop (suc n) sock msg = do
  r ← sys (fgets bufsiz)
  let line : List ℕ = elim r.ret [ none ↦ msg | some _ ↦ fgets_line (bufsiz - 1) r.bytes ]
  let ask : M (Unit {0}) = do
    sys (send sock line)
    a ← sys (recv sock (bufsiz - 1))
    elim a.ret [ none ↦ crash | some k ↦ echo_loop n sock (until_nul (take k a.bytes)) ]
  if same_text line (b'q' ∷ b'\n' ∷ []) then pure tt else ask

-- `main` of echo_clnt.c; `garbage` is what `msg` holds at the start.
pub echo_clnt_main : ℕ → List ℕ → ℕ → M ℕ
echo_clnt_main argc garbage n =
    let go : M ℕ = do
      sock ← required socket
      required (connect sock)
      echo_loop n sock garbage
      sys (close sock)
      pure 0
    in if argc == 3 then go else halt 1

-- One connection of echo_serv.c, in at most `n` passes.
unfoldable pub echo_conn : ℕ → ℕ → M (Unit {0})
echo_conn zero clnt_sock = unfinished
echo_conn (suc n) clnt_sock = do
  r ← sys (recv clnt_sock bufsiz)
  elim r.ret [
    | none ↦ pure tt
    | some zero ↦ pure tt
    | some (suc k) ↦ do
      sys (send clnt_sock (take (suc k) r.bytes))
      sys (write 1 (take (suc k) r.bytes))
      echo_conn n clnt_sock
  ]

unfoldable pub echo_rounds : ℕ → ℕ → M (Unit {0})
echo_rounds zero serv_sock = unfinished
echo_rounds (suc n) serv_sock = do
  clnt_sock ← required (accept serv_sock)
  echo_conn n clnt_sock
  sys (close clnt_sock)
  echo_rounds n serv_sock

pub echo_serv_main : ℕ → ℕ → M (Unit {0})
echo_serv_main argc n =
    let go : M (Unit {0}) = do
      serv_sock ← required socket
      required (bind serv_sock)
      required (listen serv_sock)
      echo_rounds n serv_sock
    in if argc == 2 then go else halt 1
