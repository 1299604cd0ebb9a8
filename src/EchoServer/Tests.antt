-- ===== src/EchoServer/Tests.antt =====
-- A process of ALSP/inet_tcp_serv1.c with one client that sends two bytes at a time.
use temp.Base.{ℕ, ◌≡◌, refl, none, some, [], ◌∷◌, length}
use temp.Base.History.{closes}
use temp.Base.Traffic.{stream}
use temp.Base.Sys.{Env, Errno, recv, send, accept}
use temp.EchoServer.{start_child}
use temp.EchoServer.Echo.{
  heard, Echoed, hangups, Endless, WholeSends, start_child_echoes, start_child_hangs_up,
}

abbrev client : Env
client (accept l ∷ h) = record { ret = some 7; errno = Errno.other; bytes = [] }
client (recv f n ∷ h) = record { ret = some 2; errno = Errno.other; bytes = b'h' ∷ b'i' ∷ [] }
client (send f text ∷ h) = record { ret = some (length text); errno = Errno.other; bytes = [] }
client (c ∷ h) = record { ret = some 0; errno = Errno.other; bytes = [] }
client [] = record { ret = none; errno = Errno.other; bytes = [] }

client_takes_all : WholeSends client
client_takes_all f text h = refl

nothing_heard : Echoed client []
unfolding stream heard
nothing_heard f = refl

start_child_echoes_example : Endless (Echoed client) (start_child 9 3 client [])
start_child_echoes_example = start_child_echoes client 9 3 [] client_takes_all nothing_heard

none_closed : (f : ℕ) → closes f [] ≡ hangups client f []
unfolding closes hangups
none_closed f = refl

start_child_hangs_up_example :
    Endless (λ h'. (f : ℕ) → closes f h' ≡ hangups client f h') (start_child 9 3 client [])
start_child_hangs_up_example = start_child_hangs_up client 9 3 [] none_closed

-- A client that sends a line end and nothing else.
abbrev one_byte : Env
one_byte (accept l ∷ h) = record { ret = some 7; errno = Errno.other; bytes = [] }
one_byte (recv f n ∷ h) = record { ret = some 1; errno = Errno.other; bytes = 10 ∷ [] }
one_byte (c ∷ h) = record { ret = some 0; errno = Errno.other; bytes = [] }
one_byte [] = record { ret = none; errno = Errno.other; bytes = [] }
