-- ===== src/ChatClient/Tests.antt =====
-- The client of sp/select/clnt.c on a concrete input.
use temp.Base.{some, [], ◌∷◌}
use temp.Base.Sys.{Env, Errno}

-- Every call succeeds, the user is always ready, and each line is "exit".
abbrev leaving : Env
leaving h = record { ret = some 0; errno = Errno.other; bytes = 0 ∷ b'e' ∷ b'x' ∷ b'i' ∷ b't' ∷ [] }
