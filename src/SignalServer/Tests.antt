-- ===== src/SignalServer/Tests.antt =====
-- The server of ALSP/io_rts.c, whose listener 3 signals a client that has gone when it is accepted.
use temp.Base.{◌≡◌, refl, none, some, [], ◌∷◌}
use temp.Base.Sys.{Env, Errno, accept, ret, sigwaitinfo, setown, getpid, setsig, setnb, getfl}
use temp.SignalServer.{start_sigrt, add_rts_socket, sigrt_loop}
use temp.SignalServer.Signals.{AllClosed, ends, Serves, start_sigrt_lem}
use temp.Base.History.{closes}

abbrev client_gone : Env
client_gone (accept l ∷ h) = record { ret = none; errno = Errno.eagain; bytes = [] }
client_gone (c ∷ h) = record { ret = some 0; errno = Errno.other; bytes = [] }
client_gone [] = record { ret = some 0; errno = Errno.other; bytes = [] }

nothing_closed : AllClosed client_gone []
unfolding closes ends
nothing_closed f = refl

start_sigrt_lem_example : Serves client_gone 3 (start_sigrt 9 3 client_gone [])
start_sigrt_lem_example = start_sigrt_lem client_gone 9 3 [] nothing_closed

-- The server ends although nothing is wrong with its listener.
server_ends :
    start_sigrt 9 3 client_gone []
    ≡ ret 0 (accept 3 ∷ sigwaitinfo ∷ setown 3 ∷ getpid ∷ setsig 3 0 ∷ setnb 3 ∷ getfl 3 ∷ [])
unfolding start_sigrt add_rts_socket sigrt_loop
server_ends = refl
