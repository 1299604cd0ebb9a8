-- ===== src/ErrorLog/Tests.antt =====
-- The line of APUE/err_routine.c for a short message.
use temp.Base.{◌≡◌, false, some, [], ◌∷◌}
use temp.Base.Sys.{Env, Errno, ret, write, syslog}
use temp.ErrorLog.{err_doit, log_doit}
use temp.ErrorLog.Message.{err_doit_lem}

abbrev quiet : Env
quiet h = record { ret = some 0; errno = Errno.other; bytes = [] }

err_doit_lem_example :
    (err_doit (some (b'n' ∷ b'o' ∷ [])) (b'f' ∷ []) quiet []
      ≡ ret tt (write 2 (b'f' ∷ b':' ∷ b' ' ∷ b'n' ∷ b'o' ∷ 10 ∷ []) ∷ []))
    × (log_doit false (some (b'n' ∷ b'o' ∷ [])) (b'f' ∷ []) quiet []
        ≡ ret tt (syslog (b'f' ∷ b':' ∷ b' ' ∷ b'n' ∷ b'o' ∷ 10 ∷ []) ∷ []))
err_doit_lem_example = err_doit_lem false (some (b'n' ∷ b'o' ∷ [])) (b'f' ∷ []) quiet []
