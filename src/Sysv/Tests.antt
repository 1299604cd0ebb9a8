-- ===== src/Sysv/Tests.antt =====
-- The get functions of the System V library on concrete inputs.
use temp.Base.{some, []}
use temp.Base.Sys.{Env, Errno}

-- Every call succeeds: the key, the set and the memory are all 6.
abbrev replies : Env
replies h = record { ret = some 6; errno = Errno.other; bytes = [] }
