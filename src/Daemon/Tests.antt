-- ===== src/Daemon/Tests.antt =====
-- `daemonize` of APUE/daemonize.c where every call succeeds.
use temp.Base.{ℕ, ◌+◌, ◌≡◌, some, List, [], ◌∷◌, ltb, if◌then◌else◌}
use temp.Base.History.{closes}
use temp.Base.Sys.{Call, Env, Errno, Ends, dup}
use temp.Daemon.{daemonize}
use temp.Daemon.Descriptors.{Standard, Ended, daemonize_lem}

abbrev fresh : List Call → ℕ
fresh (dup a ∷ dup b ∷ h) = 2
fresh (dup a ∷ h) = 1
fresh h = 0

abbrev willing : Env
willing h = record { ret = some (fresh h); errno = Errno.other; bytes = [] }

daemonize_lem_example :
    Ends
      (λ _ h'.
        Standard willing h' × ((f : ℕ) → closes f h' ≡ closes f [] + (if ltb f 1024 then 1 else 0)))
      (Ended willing)
      (daemonize willing [])
daemonize_lem_example = daemonize_lem willing []
