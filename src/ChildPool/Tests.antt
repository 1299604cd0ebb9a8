-- ===== src/ChildPool/Tests.antt =====
-- The parent of ALSP/io_signalfd_chld.c when one child has exited and another has stopped.
use temp.Base.{ℕ, ◌≡◌, refl, false, none, some, List, [], ◌∷◌, ltb, if◌then◌else◌}
use temp.Base.Sys.{Call, Env, Errno, waitid, fork, ret}
use temp.ChildPool.{reap_loop, start_child}
use temp.ChildPool.Refork.{Replaces, IsParent, reap_loop-Replaces}

abbrev waits : List Call → ℕ
waits [] = 0
waits (waitid ∷ h) = Prim.Native.Nat.suc (waits h)
waits (_ ∷ h) = waits h

-- Process 41 has exited (code 1), process 42 has stopped (code 5).
abbrev two_changes : Env
two_changes (waitid ∷ h) = record {
  ret = some 0;
  errno = Errno.other;
  bytes =
      if ltb (waits h) 1 then 41 ∷ 1 ∷ [] else if ltb (waits h) 2 then 42 ∷ 5 ∷ [] else 0 ∷ 0 ∷ [];
}
two_changes (fork ∷ h) = record { ret = some 99; errno = Errno.other; bytes = [] }
two_changes (c ∷ h) = record { ret = some 0; errno = Errno.other; bytes = [] }
two_changes [] = record { ret = none; errno = Errno.other; bytes = [] }

in-IsParent : IsParent two_changes
in-IsParent h e = cc

reap_loop-Replaces_example : Replaces two_changes [] (reap_loop 9 4 false two_changes [])
reap_loop-Replaces_example = reap_loop-Replaces two_changes 9 4 [] in-IsParent

-- Two new children for the one that is gone.
one_too_many :
    reap_loop 9 4 false two_changes [] ≡ ret tt (waitid ∷ fork ∷ waitid ∷ fork ∷ waitid ∷ [])
unfolding reap_loop start_child
one_too_many = refl
