-- ===== src/TcpClient/Tests.antt =====
-- A user who gives the command 2 for ever.
use temp.Base.{refl, some, false, [], ◌∷◌}
use temp.Base.Sys.{Env, Errno, getline}
use temp.TcpClient.{command_loop}
use temp.TcpClient.Commands.{Obeys, sent, answers, command_loop-Obeys}

abbrev urgent_user : Env
urgent_user (getline ∷ h) = record {
  ret = some 2;
  errno = Errno.other;
  bytes = b'2' ∷ b'\n' ∷ 0 ∷ [];
}
urgent_user h = record { ret = some 7; errno = Errno.other; bytes = [] }

command_loop-Obeys_example : Obeys urgent_user 4 (command_loop 3 4 false urgent_user [])
unfolding sent answers
command_loop-Obeys_example = command_loop-Obeys urgent_user 3 4 false [] refl (λ q. refl)
