-- ===== src/EpollTimer/Search.antt =====
-- The search for a session in the list of ALSP/epoll_timerfd.c, and its removal.
use native.Mathlib.Decide.{ℕ_discrete}
use temp.Base.{
  ℕ, zero, suc, ◌+◌, ◌-◌, ◌≤◌, ◌<◌, ◌≡◌, inl, inr, refl, sym, ◌∙◌, ap, Bool, true, false, Option,
  none, some, List, arith, ◌==◌, Bool-cases, get_or, hit, length-set,
}
use temp.Base.Segment
use temp.Base.Segment.{weight, move_last}
use temp.Base.Sys.{Errno}
use temp.EpollTimer.{
  Fdsession, FdsList, blank, no_fd, Code, success, errno, find_session, fds_findbytimerfd,
  drop_session, fds_deletebytimerfd,
}
use temp.EpollTimer.Sessions.{IsValid, total}

-- A search gives the first place that passes the test, or none passes.
abbrev pub Searched : (Fdsession → Bool) → List Fdsession → ℕ → ℕ → Option ℕ → Type 0
Searched test arr i n none = (k : ℕ) → i ≤ k → k < i + n → test (get_or arr k blank) ≡ false
Searched test arr i n (some m) =
    (i ≤ m)
    × (m < i + n)
    × (test (get_or arr m blank) ≡ true)
    × ((k : ℕ) → i ≤ k → k < m → test (get_or arr k blank) ≡ false)

find_session_lem :
    (test : Fdsession → Bool) (arr : List Fdsession) (i n : ℕ)
    → Searched test arr i n (find_session test arr i n)
unfolding find_session
find_session_lem test arr i zero = λ k lo hi. absurd (omega arith)
find_session_lem test arr i (suc n) = elim (Bool-cases (test (get_or arr i blank))) [
  | inl passes ↦ rw passes (omega arith, omega arith, passes, λ k lo hi. absurd (omega arith))
  | inr fails ↦
      rw fails
        (onward fails (find_session test arr (i + 1) n) (find_session_lem test arr (i + 1) n))
]
  where
    first :
        (k : ℕ)
        → test (get_or arr i blank) ≡ false
        → i ≤ k
        → (i + 1 ≤ k → test (get_or arr k blank) ≡ false)
        → test (get_or arr k blank) ≡ false
    first k fails lo later = elim (ℕ_discrete i k) [
      | yes e ↦ ap (λ p. test (get_or arr p blank)) (sym e) ∙ fails
      | no ne ↦ later (omega arith)
    ]

    onward :
        test (get_or arr i blank) ≡ false
        → (o : Option ℕ) → Searched test arr (i + 1) n o
        → Searched test arr i (suc n) o
    onward fails none s = λ k lo hi. first k fails lo (λ l. s k l (omega arith))
    onward fails (some m) (lo, hi, at, before) =
        (omega arith, omega arith, at, λ k l u. first k fails l (λ l'. before k l' u))

drop_session_lem :
    (s : FdsList) (i : ℕ)
    → IsValid s
    → i < s.n_used
    → IsValid (drop_session s i)
      × ((drop_session s i).n_used + 1 ≡ s.n_used)
      × ((w : Fdsession → ℕ) → total w (drop_session s i) + w (get_or s.list i blank) ≡ total w s)
unfolding drop_session
drop_session_lem s i v lt =
    let arr = move_last blank s.list i s.n_used in
    let last = get_or arr (s.n_used - 1) blank in
    let gone : Fdsession = record last { socketfd = no_fd; timerfd = no_fd } in
    (
      record {
        storage =
            length-set arr (s.n_used - 1) gone
            ∙ Segment.length-move_last blank s.list i s.n_used
            ∙ v.storage;
        fits = omega arith;
      },
      omega arith,
      λ w.
          let less : s.n_used - 1 - 0 ≡ s.n_used - 1 = omega arith in
          let all : s.n_used - 0 ≡ s.n_used = omega arith in
          omega (
            arith,
            Segment.weight-set_outside blank w arr 0 (s.n_used - 1) (s.n_used - 1) gone
                (inr (omega arith)),
            Segment.weight-move_last blank w s.list i s.n_used 0 (omega arith) lt (omega arith),
            ap (weight blank w arr 0) less,
            ap (weight blank w s.list 0) all,
          ),
    )

-- What `fds_deletebytimerfd` promises of its result and list.
abbrev pub Deleted : FdsList → ℕ → Code × FdsList → Type 0
Deleted s timerfd (success, s') =
    (x : Fdsession) × (x.timerfd ≡ timerfd)
    × IsValid s'
    × (s'.n_used + 1 ≡ s.n_used)
    × ((w : Fdsession → ℕ) → total w s' + w x ≡ total w s)
Deleted s timerfd (errno k, s') =
    (k ≡ Errno.enoent) × (s' ≡ s) × (total (λ x. hit timerfd x.timerfd) s ≡ 0)
Deleted s timerfd (Code.minus_one, s') = ⊥

miss : (a b : ℕ) → (b == a) ≡ false → hit a b ≡ 0
miss a b h = ground arith

-- `fds_deletebytimerfd` on a valid list takes exactly one session with this timer out of the list and
-- keeps all others within the memory allocated, or reports ENOENT, with the list unchanged, and then
-- no session in use has this timer.
fds_deletebytimerfd_lem :
    (s : FdsList) (timerfd : ℕ) → IsValid s → Deleted s timerfd (fds_deletebytimerfd s timerfd)
unfolding fds_deletebytimerfd fds_findbytimerfd
fds_deletebytimerfd_lem s timerfd v =
    by_search (find_session has s.list 0 s.n_used) (find_session_lem has s.list 0 s.n_used)
  where
    has : Fdsession → Bool
    has x = x.timerfd == timerfd

    by_search :
        (o : Option ℕ)
        → Searched has s.list 0 s.n_used o
        → Deleted s timerfd
            (elim o [ none ↦ (errno Errno.enoent, s) | some i ↦ (success, drop_session s i) ])
    by_search none q = (
      refl,
      refl,
      Segment.weight-eq-zero blank (λ x. hit timerfd x.timerfd) s.list 0 s.n_used
          (λ k lo hi. miss timerfd (get_or s.list k blank).timerfd (q k lo hi)),
    )
    by_search (some i) (lo, hi, at, before) =
        let (valid, size, out) = drop_session_lem s i v (omega arith) in
        (get_or s.list i blank, ground arith, valid, size, out)
