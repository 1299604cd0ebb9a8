-- ===== src/EpollTimer/Tests.antt =====
-- The sessions of ALSP/epoll_timerfd.c on concrete inputs.
use temp.Base.{some, [], ◌∷◌, arith, replicate}
use temp.Base.Sys.{Env, Errno, Ends}
use temp.EpollTimer.{FdsList, blank, add_ev}
use temp.EpollTimer.Sessions.{IsValid}
use temp.EpollTimer.Events.{Extended, add_ev_lem}

-- Sockets 5 and 7 with the timers 6 and 8.
abbrev two : FdsList
two = record {
  n_allocated = 16;
  n_used = 2;
  list =
      record { socketfd = 5; timerfd = 6; timeout = 30 }
      ∷ record { socketfd = 7; timerfd = 8; timeout = 30 }
      ∷ replicate 14 blank;
}

two-IsValid : IsValid two
two-IsValid = omega arith

-- Everything succeeds: the new timer is 11.
abbrev willing : Env
willing h = record { ret = some 11; errno = Errno.other; bytes = [] }

add_ev_lem_example : Ends (Extended willing 4 two 9 30 []) (λ _ _. ⊥) (add_ev 4 two 9 30 willing [])
add_ev_lem_example = add_ev_lem 4 two 9 30 willing [] two-IsValid
