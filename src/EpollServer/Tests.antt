-- ===== src/EpollServer/Tests.antt =====
-- The server of ALSP/io_epoll.c in one round with two events: a connection arrives, and ends.
use temp.Base.{ℕ, some, none, [], ◌∷◌, ◌≡◌, arith}
use temp.Base.Sys.{Env, Errno, epoll_wait, accept, socket, getaddrinfo}
use temp.EpollServer.{main}
use temp.EpollServer.Watch.{Lasts, Balanced, epoll_main_lem}

-- The listener is 3; `epoll_wait` reports it, and then the socket 7 that it gave.
abbrev one_client : Env
one_client (socket ∷ h) = record { ret = some 3; errno = Errno.other; bytes = [] }
one_client (epoll_wait efd ∷ h) = record {
  ret = some 2;
  errno = Errno.other;
  bytes = 1 ∷ 3 ∷ 1 ∷ 7 ∷ [];
}
one_client (accept l ∷ []) = record { ret = none; errno = Errno.eagain; bytes = [] }
one_client (accept l ∷ epoll_wait efd ∷ h) = record {
  ret = some 7;
  errno = Errno.other;
  bytes = [];
}
one_client (accept l ∷ c ∷ h) = record { ret = none; errno = Errno.eagain; bytes = [] }
one_client (c ∷ h) = record { ret = some 0; errno = Errno.other; bytes = [] }
one_client [] = record { ret = some 0; errno = Errno.other; bytes = [] }

epoll_main_lem_example :
    Lasts one_client
      (λ h.
        (l : ℕ) × ((one_client (socket ∷ getaddrinfo ∷ [])).ret ≡ some l) × Balanced one_client l h)
      (main 1 3 one_client [])
epoll_main_lem_example = epoll_main_lem one_client 1 3 (omega arith)
