-- ===== src/EpollTimer/Sessions.antt =====
-- The session list of ALSP/epoll_timerfd.c: its growth, and the creation of sessions.

use temp.Base.{
  ℕ, zero, suc, ◌+◌, ◌*◌, ◌≤◌, ◌<◌, ◌≡◌, ◌⊎◌, inl, inr, refl, sym, ◌∙◌, ap, ap₂, false, none, some,
  List, [], ◌∷◌, ◌++◌, arith, ◌==◌, Bool-cases, Option-cases, length, get_or, get_or-set_self, set,
  replicate, length-set, length-append,
}
use temp.Base.Segment
use temp.Base.Segment.{weight, move_last}
use temp.Base.Sys.{Call, Errno, Env, Ends, realloc, timerfd_create}
use temp.EpollTimer.{Fdsession, FdsList, blank, Made, made, failed, create_timer, fds_new_timerfd}

-- The sessions in use lie within the memory that was allocated.
pub record IsValid (s : FdsList) : Type 0 where
  pub storage : length s.list ≡ s.n_allocated
  pub fits : s.n_used ≤ s.n_allocated

-- The sessions in use, by any weight of a session.
abbrev pub total : (Fdsession → ℕ) → FdsList → ℕ
total w s = weight blank w s.list 0 s.n_used

get_or-append :
    (xs ys : List Fdsession) (k : ℕ) → k < length xs → get_or (xs ++ ys) k blank ≡ get_or xs k blank
get_or-append [] ys k h = absurd (omega arith)
get_or-append (x ∷ xs) ys zero h = refl
get_or-append (x ∷ xs) ys (suc k) h = get_or-append xs ys k (omega arith)

weight-append :
    (w : Fdsession → ℕ) (xs ys : List Fdsession) (i n : ℕ)
    → i + n ≤ length xs
    → weight blank w (xs ++ ys) i n ≡ weight blank w xs i n
weight-append w xs ys i zero h = refl
weight-append w xs ys i (suc n) h =
    ap₂ (λ x r. w x + r) (get_or-append xs ys i (omega arith))
      (weight-append w xs ys (i + 1) n (omega arith))

-- What the creation of a session promises: on failure the sessions are those from before; otherwise
-- one session is added at the place returned, with this socket and timeout, and nothing else changes.
abbrev pub Created : FdsList → ℕ → ℕ → Made × FdsList → Type 0
Created s socketfd timeout (failed k, s') =
    IsValid s' × (s'.n_used ≡ s.n_used) × ((w : Fdsession → ℕ) → total w s' ≡ total w s)
Created s socketfd timeout (made i, s') =
    IsValid s'
    × (i ≡ s.n_used)
    × (s'.n_used ≡ s.n_used + 1)
    × ((get_or s'.list i blank).socketfd ≡ socketfd)
    × ((get_or s'.list i blank).timeout ≡ timeout)
    × ((w : Fdsession → ℕ) → total w s' ≡ total w s + w (get_or s'.list i blank))

-- The calls before the creation of the timer: none while there is room, and else the list has grown.
abbrev pub Ready : Env → FdsList → List Call → List Call → Type 0
Ready e s h h₁ =
    ((s.n_used < s.n_allocated) × (h₁ ≡ h))
    ⊎ ((s.n_used ≡ s.n_allocated)
        × (h₁ ≡ realloc ((s.n_allocated + 16) * 12) ∷ h)
        × ((p : ℕ) × ((e h₁).ret ≡ some p)))

-- The last call has given the timer, or a call that failed just before gives the reason `k` for no session.
abbrev pub GetsTimer : Env → FdsList → List Call → ℕ → List Call → Type 0
GetsTimer e s h timerfd h' =
    (h₁ : List Call) × Ready e s h h₁ × (h' ≡ timerfd_create ∷ h₁) × ((e h').ret ≡ some timerfd)

abbrev pub NoTimer : Env → FdsList → List Call → Errno → List Call → Type 0
NoTimer e s h k h' =
    ((e h').ret ≡ none)
    × ((e h').errno ≡ k)
    × (((s.n_used ≡ s.n_allocated) × (h' ≡ realloc ((s.n_allocated + 16) * 12) ∷ h))
        ⊎ ((h₁ : List Call) × Ready e s h h₁ × (h' ≡ timerfd_create ∷ h₁)))

abbrev pub Asked : Env → FdsList → List Call → Made × FdsList → List Call → Type 0
Asked e s h (failed k, s') h' = NoTimer e s h k h'
Asked e s h (made i, s') h' = GetsTimer e s h (get_or s'.list i blank).timerfd h'

create_timer_lem :
    (s s₀ : FdsList) (socketfd timeout : ℕ) (e : Env) (h h₀ : List Call)
    → IsValid s
    → s.n_used < s.n_allocated
    → s.n_used ≡ s₀.n_used
    → ((w : Fdsession → ℕ) → total w s ≡ total w s₀)
    → Ready e s₀ h₀ h
    → Ends
        (λ r h'. Created s₀ socketfd timeout r × Asked e s₀ h₀ r h')
        (λ _ _. ⊥)
        (create_timer s socketfd timeout e h)
unfolding create_timer
create_timer_lem s s₀ socketfd timeout e h h₀ v room same all ready =
    elim (Option-cases (e (timerfd_create ∷ h)).ret) [
      | inl x ↦ rw x ((v, same, all), (x, refl, inr (h, ready, refl)))
      | inr (fd, x) ↦
          let new : Fdsession = record { socketfd = socketfd; timerfd = fd; timeout = timeout } in
          let at : get_or (set s.list s.n_used new) s.n_used blank ≡ new =
            get_or-set_self s.list s.n_used new blank (omega (arith, v.storage)) in
          rw x (
            (
              record { storage = length-set s.list s.n_used new ∙ v.storage; fits = omega arith },
              same,
              omega arith,
              rw at,
              rw at,
              λ w. omega (
                arith,
                Segment.weight_push blank w s.list s.n_used new (omega (arith, v.storage)),
                all w,
                ap w at,
              ),
            ),
            (h, ready, refl, x ∙ ap (λ y. some y.timerfd) (sym at)),
          )
    ]

-- `fds_new_timerfd` on a valid list: it grows the list by 16 places when all are in use; if the memory
-- or the timer cannot be had, the list has the same sessions as before, and the result is the error of the
-- call that failed; otherwise it adds exactly one session, for this socket and timeout and with the timer
-- just created, behind the others and returns its place; and in every case all sessions stay within the
-- memory allocated.
pub fds_new_timerfd_lem :
    (s : FdsList) (socketfd timeout : ℕ) (e : Env) (h : List Call)
    → IsValid s
    → Ends
        (λ r h'. Created s socketfd timeout r × Asked e s h r h')
        (λ _ _. ⊥)
        (fds_new_timerfd s socketfd timeout e h)
unfolding fds_new_timerfd
fds_new_timerfd_lem s socketfd timeout e h v = elim (Bool-cases (s.n_allocated == s.n_used)) [
  | inr room ↦
      let lt : s.n_used < s.n_allocated = room_left v room in
      rw room (create_timer_lem s s socketfd timeout e h h v lt refl (λ w. refl) (inl (lt, refl)))
  | inl full ↦
      let all : s.n_used ≡ s.n_allocated = ground arith in
      elim (Option-cases (e (realloc ((s.n_allocated + 16) * 12) ∷ h)).ret) [
        | inl x ↦ rw (full, x) ((v, refl, λ w. refl), (x, refl, inl (all, refl)))
        | inr (p, x) ↦
            let grown : FdsList = record s {
              list = s.list ++ replicate 16 blank;
              n_allocated = s.n_allocated + 16;
            } in
            rw (full, x)
              (create_timer_lem grown s socketfd timeout e (realloc ((s.n_allocated + 16) * 12) ∷ h)
                h
                (record {
                  storage = omega (arith, length-append s.list (replicate 16 blank), v.storage);
                  fits = omega (arith, v.fits);
                })
                (omega (arith, v.fits)) refl
                (λ w.
                  weight-append w s.list (replicate 16 blank) 0 s.n_used
                    (omega (arith, v.storage, v.fits)))
                (inr (all, refl, (p, x))))
      ]
]
  where
    room_left : IsValid s → (s.n_allocated == s.n_used) ≡ false → s.n_used < s.n_allocated
    room_left v' room = ground arith
