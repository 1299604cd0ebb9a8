-- ===== src/Uptime/Tests.antt =====
-- The server with one client, and the client with a server that does not answer.
use temp.Base.{◌≡◌, refl, none, some, [], ◌∷◌, arith}
use temp.Base.History.{closes}
use temp.Base.Sys.{Env, Errno, accept, fgets, popen, connect}
use temp.Uptime.{serve_loop, connect_retry}
use temp.Uptime.Retry.{Connects, connect_retry-Connects}
use temp.Uptime.Clients.{Serves, taken, started, waited, serve_loop-Serves}

-- One client comes, then `accept` fails; every second `fgets` is the end.
abbrev one_client : Env
one_client (accept l ∷ []) = record { ret = some 7; errno = Errno.other; bytes = [] }
one_client (accept l ∷ h) = record { ret = none; errno = Errno.other; bytes = [] }
one_client (fgets n ∷ popen ∷ h) = record {
  ret = some 1;
  errno = Errno.other;
  bytes = b'u' ∷ b'p' ∷ [];
}
one_client (fgets n ∷ h) = record { ret = none; errno = Errno.other; bytes = [] }
one_client h = record { ret = some 1; errno = Errno.other; bytes = [] }

serve_loop-Serves_example :
    Serves one_client (λ c. c ≡ 1) (λ _. ⊥) (serve_loop 4 (b'n' ∷ b'o' ∷ []) 3 one_client [])
unfolding closes taken started waited
serve_loop-Serves_example =
    serve_loop-Serves one_client 4 3 (b'n' ∷ b'o' ∷ []) [] (omega arith) ((λ f. refl), refl)

-- No server answers.
abbrev no_server : Env
no_server (connect f ∷ h) = record { ret = none; errno = Errno.other; bytes = [] }
no_server h = record { ret = some 5; errno = Errno.other; bytes = [] }

connect_retry-Connects_example : Connects no_server [] 8 127 (connect_retry no_server [])
connect_retry-Connects_example = connect_retry-Connects no_server []
