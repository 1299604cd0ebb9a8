-- ===== src/PollServer/Tests.antt =====
-- The socket table of ALSP/io_poll.c on concrete inputs.
use temp.Base.{
  ℕ, ◌≡◌, refl, true, false, none, some, [], ◌∷◌, arith, replicate, if◌then◌else◌, ◌==◌,
}
use temp.Base.Sys.{Env, recv, close, Errno, IsOver, history}
use temp.PollServer.{Flags, Pollfd, blank, Table, serve_loop, del_socket, find_fd, drop_entry}
use temp.PollServer.Sockets.{IsValid}
use temp.PollServer.Dispatch.{AllServed, serve_loop_lem}

abbrev watching : Flags
watching = record { pollin = true; pollpri = true; pollerr = false; pollnval = false }

abbrev readable_now : Flags
readable_now = record { pollin = true; pollpri = false; pollerr = false; pollnval = false }

abbrev entry : ℕ → Flags → Pollfd
entry fd f = record { fd = fd; events = watching; revents = f }

-- A listener 3, and two sockets, both readable.
abbrev two_ready : Table
two_ready = record {
  pollfds =
      entry 3 blank.revents ∷ entry 4 readable_now ∷ entry 5 readable_now ∷ replicate 252 blank;
  cnt_fd_socket = 3;
}

two_ready-IsValid : IsValid two_ready
two_ready-IsValid = record { storage = refl; fits = omega arith; distinct = λ f. ground arith }

-- Socket 4 has been closed by its peer, and socket 5 has two bytes.
abbrev bytes_of : ℕ → ℕ
bytes_of f = if f == 5 then 2 else 0

abbrev replies : Env
replies [] = record { ret = none; errno = Errno.other; bytes = [] }
replies (recv f n ∷ h) = record { ret = some (bytes_of f); errno = Errno.other; bytes = [] }
replies (c ∷ h) = record { ret = some 0; errno = Errno.other; bytes = [] }

-- Socket 5 is moved to the place of socket 4 and still read, in the same round.
both_read :
    history (serve_loop 3 two_ready 1 2 replies []) ≡ recv 5 1024 ∷ close 4 ∷ recv 4 1024 ∷ []
unfolding serve_loop del_socket find_fd drop_entry
both_read = refl

serve_loop_lem_example :
    AllServed two_ready 1 [] (serve_loop 3 two_ready 1 2 replies [])
    × IsOver (serve_loop 3 two_ready 1 2 replies [])
serve_loop_lem_example = serve_loop_lem two_ready 2 replies [] two_ready-IsValid (omega arith)
