-- ===== src/OobServer/Tests.antt =====
-- A process of ALSP/inet_tcp_serv1_OOB.c with a client that always has bytes to send, and with one that has
-- gone.
use temp.Base.{ℕ, refl, ap, none, some, Option, [], ◌∷◌, arith}
use temp.Base.Sys.{Env, Errno, recv, sockatmark}
use temp.OobServer.{mark_loop}
use temp.OobServer.Marks.{HasClosed, ordinary_bytes_cut_off}

abbrev talker : Env
talker (sockatmark f ∷ h) = record { ret = some 0; errno = Errno.other; bytes = [] }
talker (recv f n ∷ h) = record { ret = some n; errno = Errno.other; bytes = [] }
talker (c ∷ h) = record { ret = some 0; errno = Errno.other; bytes = [] }
talker [] = record { ret = none; errno = Errno.other; bytes = [] }

number : Option ℕ → ℕ
number none = 0
number (some k) = k

ordinary_bytes_cut_off_example : HasClosed 7 (mark_loop 256 7 0 talker [])
unfolding number
ordinary_bytes_cut_off_example =
    ordinary_bytes_cut_off talker 255 7 0 []
      ((λ h. refl), (λ m h x. cc), (λ m k h x. omega (arith, ap number x))) (omega arith)
      (omega arith)

abbrev gone : Env
gone (recv f n ∷ h) = record { ret = none; errno = Errno.other; bytes = [] }
gone (c ∷ h) = record { ret = some 0; errno = Errno.other; bytes = [] }
gone [] = record { ret = none; errno = Errno.other; bytes = [] }
