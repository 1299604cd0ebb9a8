-- ===== src/FileTransfer/Clnt.antt =====
-- `main` of sp/sock/clnt/clnt.c: from the arguments to the end of the upload.
use temp.Base.{ℕ, List, [], ◌==◌, if◌then◌else◌, not, get_or, length}
use temp.Base.Sys.{M, pure, halt, ◌>>=◌, ◌>>◌, getaddrinfo, open_file, getsockname, getnameinfo}
use temp.FileTransfer.{required, connect_first, send_file}

-- `main` with the arguments `argv` (the name of the program first), in at most `n` rounds of
-- `send_file`. The reply of `getaddrinfo` is the number of addresses found; a status of `send_file`
-- is ignored.
pub main : ℕ → List (List ℕ) → M ℕ
main n argv =
    let reuse = not (get_or (get_or argv 4 []) 0 0 == b'0') in
    let upload : ℕ → M ℕ = λ fd. do
      addresses ← required getaddrinfo
      sfd ← connect_first reuse addresses
      required (getsockname sfd)
      required (getnameinfo sfd)
      send_file n sfd fd (get_or argv 3 [])
      pure 0
    in let run : M ℕ = do fd ← required (open_file (get_or argv 3 [])); upload fd
      in if length argv == 5 then run else halt 1
