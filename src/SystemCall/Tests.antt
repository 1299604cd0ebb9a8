-- ===== src/SystemCall/Tests.antt =====
-- `system` of APUE/posix_system.c for a command that a child runs.
use temp.Base.{some, [], ◌∷◌}
use temp.Base.Sys.{Env, Errno, Ends}
use temp.SystemCall.{posix_system}
use temp.SystemCall.Signals.{Left, ChildEnded, posix_system_lem}

-- Every call succeeds; the child is the process 5, and its status is 256.
abbrev parent : Env
parent h = record { ret = some 5; errno = Errno.other; bytes = 0 ∷ 1 ∷ [] }

posix_system_lem_example :
    Ends (Left parent) (ChildEnded parent) (posix_system 1 (some (b'w' ∷ [])) parent [])
posix_system_lem_example = posix_system_lem 1 (b'w' ∷ []) parent []
