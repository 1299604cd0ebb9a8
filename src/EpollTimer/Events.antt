-- ===== src/EpollTimer/Events.antt =====
-- The handling of events in ALSP/epoll_timerfd.c: what becomes of a connection whose timer could not
-- be had, and of the sessions in general.
use temp.Base.{
  ℕ, ◌+◌, ◌<◌, ◌≡◌, inl, inr, refl, true, false, none, some, List, ◌∷◌, arith, ltb, ◌==◌,
  Bool-cases, Option-cases, get_or,
}
use temp.Base.Sys.{
  Call, Errno, Env, Ends, Ends-map, Ends-bind, ret, exit, timerfd_create, epoll_add, epoll_del,
  timerfd_settime, close, recv,
}
use temp.EpollTimer.{
  Fdsession, FdsList, blank, Code, success, minus_one, errno, Made, made, failed, create_timer,
  fds_new_timerfd, fds_set_timerfd, fds_findbysocketfd, fds_findbytimerfd, arm_timer, with_timer,
  add_ev, del_ev, checked, session_event,
}
use temp.EpollTimer.Sessions.{
  IsValid, total, Created, Asked, GetsTimer, NoTimer, fds_new_timerfd_lem,
}

-- One session more, `x`, for this socket and timeout.
abbrev pub Joined : FdsList → ℕ → ℕ → Fdsession → FdsList → Type 0
Joined s fd timeout x s' =
    (x.socketfd ≡ fd)
    × (x.timeout ≡ timeout)
    × (s'.n_used ≡ s.n_used + 1)
    × ((w : Fdsession → ℕ) → total w s' ≡ total w s + w x)

-- The sessions of before.
abbrev pub Kept : FdsList → FdsList → Type 0
Kept s s' = (s'.n_used ≡ s.n_used) × ((w : Fdsession → ℕ) → total w s' ≡ total w s)

-- What becomes of the timer of the session `x`, which `h` has just created: it is set and put into the
-- epoll set, or one of these two calls fails.
pub data Armed (e : Env) (efd : ℕ) (x : Fdsession) (h : List Call) : Code → List Call → Type 0 where
  armed :
      (a b : ℕ)
      → (e (timerfd_settime x.timerfd x.timeout ∷ h)).ret ≡ some a
      → (e (epoll_add efd x.timerfd ∷ timerfd_settime x.timerfd x.timeout ∷ h)).ret ≡ some b
      → Armed e efd x h success (epoll_add efd x.timerfd ∷ timerfd_settime x.timerfd x.timeout ∷ h)
  unset :
      (e (timerfd_settime x.timerfd x.timeout ∷ h)).ret ≡ none
      → Armed e efd x h
          (errno (e (timerfd_settime x.timerfd x.timeout ∷ h)).errno)
          (timerfd_settime x.timerfd x.timeout ∷ h)
  unwatched :
      (a : ℕ)
      → (e (timerfd_settime x.timerfd x.timeout ∷ h)).ret ≡ some a
      → (e (epoll_add efd x.timerfd ∷ timerfd_settime x.timerfd x.timeout ∷ h)).ret ≡ none
      → Armed e efd x h minus_one
          (epoll_add efd x.timerfd ∷ timerfd_settime x.timerfd x.timeout ∷ h)

-- The ways of `add_ev`, with the result, the sessions and the calls of each: the socket cannot be put into
-- the epoll set; it is, and without a timeout that is all; with a timeout there is no timer to be had; or
-- there is one, with a session for the socket.
pub data Added (e : Env) (efd : ℕ) (s : FdsList) (fd timeout : ℕ) (h : List Call)
    : Code → FdsList → List Call → Type 0 where
  refused :
      (e (epoll_add efd fd ∷ h)).ret ≡ none
      → Added e efd s fd timeout h minus_one s (epoll_add efd fd ∷ h)
  untimed :
      (k : ℕ)
      → (e (epoll_add efd fd ∷ h)).ret ≡ some k
      → timeout ≡ 0
      → Added e efd s fd timeout h success s (epoll_add efd fd ∷ h)
  no_timer :
      (k : ℕ) (v : Errno) (s' : FdsList) (h' : List Call)
      → (e (epoll_add efd fd ∷ h)).ret ≡ some k
      → 0 < timeout
      → Kept s s'
      → NoTimer e s (epoll_add efd fd ∷ h) v h'
      → Added e efd s fd timeout h (errno v) s' h'
  timed :
      (k : ℕ) (x : Fdsession) (c : Code) (s' : FdsList) (h₁ h' : List Call)
      → (e (epoll_add efd fd ∷ h)).ret ≡ some k
      → 0 < timeout
      → Joined s fd timeout x s'
      → GetsTimer e s (epoll_add efd fd ∷ h) x.timerfd h₁
      → Armed e efd x h₁ c h'
      → Added e efd s fd timeout h c s' h'

abbrev pub Extended : Env → ℕ → FdsList → ℕ → ℕ → List Call → Code × FdsList → List Call → Type 0
Extended e efd s fd timeout h r h' = IsValid r.1 × Added e efd s fd timeout h r.0 r.1 h'

arm_timer_lem :
    (efd : ℕ) (s : FdsList) (i : ℕ) (e : Env) (h : List Call)
    → Ends
        (λ r h'. (r.1 ≡ s) × Armed e efd (get_or s.list i blank) h r.0 h')
        (λ _ _. ⊥)
        (arm_timer efd s i e h)
unfolding arm_timer fds_set_timerfd
arm_timer_lem efd s i e h =
    let x = get_or s.list i blank in
    let h₁ = timerfd_settime x.timerfd x.timeout ∷ h in
    elim (Option-cases (e h₁).ret) [
      | inl a ↦ rw a (refl, unset a)
      | inr (k, a) ↦ elim (Option-cases (e (epoll_add efd x.timerfd ∷ h₁)).ret) [
        | inl b ↦ rw (a, b) (refl, unwatched k a b)
        | inr (m, b) ↦ rw (a, b) (refl, armed k m a b)
      ]
    ]

module _ (efd : ℕ) (s : FdsList) (fd timeout : ℕ) (e : Env) (h : List Call) (k : ℕ)
    (entered : (e (epoll_add efd fd ∷ h)).ret ≡ some k) (pos : 0 < timeout) where
  with_timer-Extended :
      (m : Made × FdsList) (h₁ : List Call)
      → Created s fd timeout m
      → Asked e s (epoll_add efd fd ∷ h) m h₁
      → Ends (Extended e efd s fd timeout h) (λ _ _. ⊥) (with_timer efd m e h₁)
  unfolding with_timer
  with_timer-Extended (failed v, s') h₁ c lacks =
      (c.0, no_timer k v s' h₁ entered pos (c.1, c.2) lacks)
  with_timer-Extended (made i, s') h₁ c gets =
      let x = get_or s'.list i blank in
      let joined : Joined s fd timeout x s' = (c.3, c.4, c.2, c.5) in
      Ends-map (arm_timer efd s' i e h₁)
        (λ r h' (same, out). rw same (c.0, timed k x r.0 s' h₁ h' entered pos joined gets out))
        (λ _ _ y. y) (arm_timer_lem efd s' i e h₁)

-- `add_ev` on a valid list, with any timeout and any failures on the way, keeps the list valid. If the
-- socket cannot be put into the epoll set, it returns -1 and does nothing else; with the timeout 0 it
-- returns 0, and the sessions and the calls are those of putting the socket into the set. With a timeout
-- above 0 it gets a timer, with the growth of the list before if that is full: when it cannot, the sessions
-- are those of before and the result is the error of the call that failed; when it can, there is exactly one
-- session more, for this socket with this timeout and timer, and the result is 0 if the timer has then been
-- set to the timeout and put into the epoll set, the error of setting it if that failed, and -1 if it could
-- not be put into the set.
pub add_ev_lem :
    (efd : ℕ) (s : FdsList) (fd timeout : ℕ) (e : Env) (h : List Call)
    → IsValid s
    → Ends (Extended e efd s fd timeout h) (λ _ _. ⊥) (add_ev efd s fd timeout e h)
unfolding add_ev
add_ev_lem efd s fd timeout e h v = elim (Option-cases (e (epoll_add efd fd ∷ h)).ret) [
  | inl a ↦ rw a (v, refused a)
  | inr (k, a) ↦ elim (Bool-cases (ltb 0 timeout)) [
    | inr never ↦ rw (a, never) (v, untimed k a (ground arith))
    | inl later ↦
        let pos : 0 < timeout = ground arith in
        rw (a, later)
          (Ends-bind _ (Extended e efd s fd timeout h) (λ _ _. ⊥) (fds_new_timerfd s fd timeout)
            (with_timer efd) e _ (fds_new_timerfd_lem s fd timeout e (epoll_add efd fd ∷ h) v)
            (λ r h' c. with_timer-Extended efd s fd timeout e h k a pos r h' c.0 c.1))
  ]
]

-- ADD_EV goes on when the timer of a new connection cannot be had: the socket has been added to the
-- epoll set, and no session is made for it.
untimed_connection_kept :
    (efd : ℕ) (s : FdsList) (fd timeout : ℕ) (e : Env) (h : List Call) {k : ℕ}
    → s.n_used < s.n_allocated
    → 0 < timeout
    → (e (epoll_add efd fd ∷ h)).ret ≡ some k
    → (e (timerfd_create ∷ epoll_add efd fd ∷ h)).ret ≡ none
    → checked (add_ev efd s fd timeout) e h ≡ ret s (timerfd_create ∷ epoll_add efd fd ∷ h)
unfolding checked add_ev with_timer fds_new_timerfd create_timer
untimed_connection_kept efd s fd timeout e h room pos a b =
    let later : ltb 0 timeout ≡ true = ground arith in
    let space : (s.n_allocated == s.n_used) ≡ false = ground arith in rw (a, later, space, b) refl

-- When the peer of a connection without a session closes it, the server closes the socket, finds no
-- session, and DEL_EV ends the whole process with EXIT_FAILURE.
untimed_close_ends_server :
    (efd : ℕ) (s : FdsList) (fd : ℕ) (e : Env) (h : List Call) {k : ℕ}
    → fds_findbysocketfd s fd ≡ none
    → fds_findbytimerfd s fd ≡ none
    → (e (recv fd 1024 ∷ h)).ret ≡ some 0
    → (e (epoll_del efd fd ∷ recv fd 1024 ∷ h)).ret ≡ some k
    → session_event efd s fd e h ≡ exit 1 (close fd ∷ epoll_del efd fd ∷ recv fd 1024 ∷ h)
unfolding session_event checked del_ev
untimed_close_ends_server efd s fd e h no_socket no_clock a b =
    rw (no_clock, session_event) (rw (a, b) (rw no_socket refl))
