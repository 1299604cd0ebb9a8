-- ===== src/SelectServer/Tests.antt =====
-- The table of ALSP/io_select.c on concrete inputs.
use temp.Base.{ℕ, ◌<◌, zero, suc, ◌≡◌, refl, true, false, ◌==◌, some, [], ◌∷◌, get_or, arith}
use temp.Base.Sys.{Env, Errno}
use temp.SelectServer.{Sockets, fd_isset}

-- A listener and two clients.
abbrev three : Sockets
three = record { fd_socket = 3 ∷ 7 ∷ 9 ∷ 0 ∷ []; cnt_fd_socket = 3 }

-- Every peer has closed its connection.
abbrev closed : Env
closed h = record { ret = some 0; errno = Errno.other; bytes = [] }

behind_listener : (k : ℕ) → k < 1 → (get_or three.fd_socket k 0 == 7) ≡ false
behind_listener zero l = refl
behind_listener (suc k) l = absurd (omega arith)

in_set : fd_isset 7 (7 ∷ 9 ∷ []) ≡ true
unfolding fd_isset
in_set = refl
