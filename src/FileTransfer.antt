-- ===== src/FileTransfer.antt =====
-- sp/sock: a client that sends a file over a socket (clnt/clnt.c) and a server that stores it
-- (serv/serv.c). An `int` that crosses the socket is its 32-bit pattern in four bytes, low byte first.
pub mod Upload
pub mod Download
pub mod Clnt
pub mod Serv
mod Tests
use temp.Base.{
  ℕ, zero, suc, ◌+◌, ◌-◌, ◌*◌, ◌^◌, Bool, true, false, Option, none, some, List, [], ◌∷◌, ltb, ◌==◌,
  if◌then◌else◌, get_or, take, length,
}
use temp.Base.Sys.{
  Call, Reply, Errno, M, pure, halt, unfinished, sys, ◌>>=◌, ◌>>◌, close, recv, send, read, write,
  open_file, socket, setsockopt, connect, accept, getnameinfo,
}

-- `BUFSIZ` and `PATH_MAX`
abbrev pub bufsiz : ℕ
bufsiz = 8192

abbrev pub path_max : ℕ
path_max = 4096

abbrev pub int_of : List ℕ → ℕ
int_of b = get_or b 0 0 + 256 * get_or b 1 0 + 65536 * get_or b 2 0 + 16777216 * get_or b 3 0

abbrev pub minus_one : ℕ
minus_one = 2 ^ 32 - 1

-- The label ERROR of `send_file`.
pub give_up : {A : Type 0} → ℕ → ℕ → M A
give_up sfd fd = do sys (close sfd); sys (close fd); halt 1

-- `while (ret_read)`: each pass sends the first `ret_read` bytes of the buffer.
pub send_chunk : ℕ → ℕ → ℕ → List ℕ → ℕ → M (Unit {0})
send_chunk n sfd fd buf zero = pure tt
send_chunk zero sfd fd buf (suc left) = unfinished
send_chunk (suc n) sfd fd buf (suc left) = do
  r ← sys (send sfd (take (suc left) buf))
  elim r.ret [
    | none ↦ give_up sfd fd
    | some ret_send ↦ send_chunk n sfd fd buf (suc left - ret_send)
  ]

-- The loop that reads the file and sends it, in at most `n` rounds.
pub send_loop : ℕ → ℕ → ℕ → M (Unit {0})
send_loop zero sfd fd = unfinished
send_loop (suc n) sfd fd = do
  r ← sys (read fd bufsiz)
  elim r.ret [
    | none ↦ give_up sfd fd
    | some zero ↦ pure tt
    | some (suc k) ↦ do send_chunk (suc n) sfd fd r.bytes (suc k); send_loop n sfd fd
  ]

-- The end of `send_file` after the whole file is sent.
pub finish : ℕ → ℕ → M ℕ
finish sfd fd = do sys (close sfd); sys (close fd); pure 0

pub send_file : ℕ → ℕ → ℕ → List ℕ → M ℕ
send_file n sfd fd filename =
    let upload : M ℕ = do send_loop n sfd fd; finish sfd fd
    in let ask : M ℕ = do
      r ← sys (recv sfd 4)
      elim r.ret [
        | none ↦ give_up sfd fd
        | some _ ↦ if int_of r.bytes == minus_one then give_up sfd fd else upload
      ]
      in do
        r ← sys (send sfd filename)
        elim r.ret [
          | none ↦ give_up sfd fd
          | some k ↦ if k == length filename then ask else give_up sfd fd
        ]

-- A call whose failure ends the process with EXIT_FAILURE.
abbrev pub required : Call → M ℕ
required c = do r ← sys c; elim r.ret [ none ↦ halt 1 | some v ↦ pure v ]

-- The loop of the client's `main` over the `n` addresses that `getaddrinfo` found: a connected socket.
pub connect_first : Bool → ℕ → M ℕ
connect_first reuse zero = halt 1
connect_first reuse (suc n) =
    let attempt : ℕ → M ℕ = λ sfd. do
      r ← sys (connect sfd)
      elim r.ret [ some _ ↦ pure sfd | none ↦ do sys (close sfd); connect_first reuse n ]
    in let with_option : ℕ → M ℕ = λ sfd. do required (setsockopt sfd); attempt sfd
      in do
        r ← sys socket
        elim r.ret [
          | none ↦ connect_first reuse n
          | some sfd ↦ if reuse then with_option sfd else attempt sfd
        ]

-- `while (1)` round the first `recv` of `recv_file`: the name of the file, or `none` for a failure.
pub recv_name : ℕ → ℕ → M (Option (List ℕ))
recv_name zero cfd = unfinished
recv_name (suc n) cfd = do
  r ← sys (recv cfd (path_max - 1))
  elim r.ret [
    | some k ↦ pure (some (take k r.bytes))
    | none ↦ elim r.errno [ Errno.eintr ↦ recv_name n cfd | _ ↦ pure none ]
  ]

-- `while (ret_len)`: each pass writes the first `ret_len` bytes of the buffer, and a failure is retried.
pub write_chunk : ℕ → ℕ → List ℕ → ℕ → M (Unit {0})
write_chunk n fd buf zero = pure tt
write_chunk zero fd buf (suc left) = unfinished
write_chunk (suc n) fd buf (suc left) = do
  r ← sys (write fd (take (suc left) buf))
  elim r.ret [
    | none ↦ write_chunk n fd buf (suc left)
    | some ret_write ↦ write_chunk n fd buf (suc left - ret_write)
  ]

-- The loop that receives the file and stores it: 0, or -1 after a failure.
pub recv_loop : ℕ → ℕ → ℕ → M ℕ
recv_loop zero cfd fd = unfinished
recv_loop (suc n) cfd fd = do
  r ← sys (recv cfd bufsiz)
  elim r.ret [
    | none ↦ elim r.errno [
      | Errno.eintr ↦ recv_loop n cfd fd
      | _ ↦ do sys (close cfd); sys (close fd); pure minus_one
    ]
    | some zero ↦ do sys (close fd); sys (close cfd); pure 0
    | some (suc k) ↦ do write_chunk (suc n) fd r.bytes (suc k); recv_loop n cfd fd
  ]

-- What follows in `recv_file` once the name is known.
pub store_file : ℕ → ℕ → List ℕ → M ℕ
store_file n cfd filename = do
  r ← sys (open_file filename)
  elim r.ret [
    | none ↦ do sys (send cfd (255 ∷ 255 ∷ 255 ∷ 255 ∷ [])); sys (close cfd); pure minus_one
    | some fd ↦ do sys (send cfd (0 ∷ 0 ∷ 0 ∷ 0 ∷ [])); recv_loop n cfd fd
  ]

pub recv_file : ℕ → ℕ → M ℕ
recv_file n cfd = do
  name ← recv_name n cfd
  elim name [ none ↦ pure minus_one | some filename ↦ store_file n cfd filename ]

-- `start_child` of the server, for `n` rounds. After a failed `accept` it closes the descriptor -1.
pub start_child : ℕ → ℕ → M (Unit {0})
start_child zero sfd = unfinished
start_child (suc n) sfd = do
  r ← sys (accept sfd)
  elim r.ret [
    | none ↦ do sys (close minus_one); start_child n sfd
    | some cfd ↦ do required (getnameinfo cfd); recv_file n cfd; start_child n sfd
  ]
