-- ===== src/SelectServer/Removal.antt =====
-- The table of ALSP/io_select.c: the set for `select`, and the removal of a socket during the loop.
use temp.Base.{
  ℕ, zero, suc, ◌+◌, ◌-◌, ◌<◌, ◌≤◌, ◌≡◌, refl, sym, ap, max, true, false, ◌==◌, if◌then◌else◌,
  Option, none, some, List, [], ◌∷◌, inl, inr, arith, Bool-cases, length, get_or, get_or-set_ne,
  get_or-set_self, ◌^◌, ◌∙◌, ltb,
}
use native.Mathlib.Decide.{ℕ_discrete}
use temp.Base.Segment.{weight, weight-move_last, weight-set_outside, move_last}
use temp.Base.Sys.{bind-ret, pure, Call, Env, ret, close, recv}
use temp.SelectServer.{
  Sockets, find_fd, drop_socket, del_socket, collect, mk_fds, fd_isset, serve_socket, serve_loop,
}

-- How often a descriptor stands among the live places.
abbrev pub live : ℕ → Sockets → ℕ
live f t = weight 0 (λ x. if f == x then 1 else 0) t.fd_socket 0 t.cnt_fd_socket

find_fd_first :
    (arr : List ℕ) (fd i n m : ℕ)
    → i ≤ m
    → m < i + n
    → get_or arr m 0 ≡ fd
    → ((k : ℕ) → k < m → (get_or arr k 0 == fd) ≡ false)
    → find_fd arr fd i n ≡ some m
unfolding find_fd
find_fd_first arr fd i zero m lo hi at first = absurd (omega arith)
find_fd_first arr fd i (suc n) m lo hi at first = elim (ℕ_discrete i m) [
  | yes e ↦
      let here : (get_or arr i 0 == fd) ≡ true = ground (arith, ap (λ p. get_or arr p 0) e, at) in
      rw (here, e) refl
  | no ne ↦
      rw (first i (omega arith))
        (find_fd_first arr fd (i + 1) n m (omega arith) (omega arith) at first)
]

-- When `del_socket` finds a descriptor first at place `m`, it closes it, returns `m`, and takes just one
-- entry of this descriptor out of the table.
pub del_socket_takes_one :
    (t : Sockets) (m fd : ℕ) (e : Env) (h : List Call)
    → t.cnt_fd_socket ≤ length t.fd_socket
    → m < t.cnt_fd_socket
    → get_or t.fd_socket m 0 ≡ fd
    → ((k : ℕ) → k < m → (get_or t.fd_socket k 0 == fd) ≡ false)
    → (del_socket t fd e h ≡ ret (some m, drop_socket t m) (close fd ∷ h))
      × ((drop_socket t m).cnt_fd_socket + 1 ≡ t.cnt_fd_socket)
      × ((f : ℕ) → live f (drop_socket t m) + (if f == fd then 1 else 0) ≡ live f t)
unfolding del_socket drop_socket
del_socket_takes_one t m fd e h size lt at first = (
  rw (find_fd_first t.fd_socket fd 0 t.cnt_fd_socket m (omega arith) (omega arith) at first) refl,
  omega arith,
  λ f.
      let w : ℕ → ℕ = λ x. if f == x then 1 else 0 in
      let n = t.cnt_fd_socket in
      let moved = move_last {A = ℕ} 0 t.fd_socket m n in
      let left : live f (drop_socket t m) ≡ weight {A = ℕ} 0 w moved 0 (n - 1) =
        weight-set_outside {A = ℕ} 0 w moved 0 (n - 1) (n - 1) (2 ^ 32 - 1) (inr (omega arith)) in
      let all : live f t ≡ weight {A = ℕ} 0 w t.fd_socket 0 n = refl in
      omega (
        arith,
        left,
        all,
        weight-move_last {A = ℕ} 0 w t.fd_socket m n 0 (omega arith) lt size,
        ap (weight {A = ℕ} 0 w moved 0) (minus_zero (n - 1)),
        ap (weight {A = ℕ} 0 w t.fd_socket 0) (minus_zero n),
        ap w at,
      ),
)
  where
    minus_zero : (k : ℕ) → k - 0 ≡ k
    minus_zero k = omega arith

serve_socket_closed :
    (t : Sockets) (i fd : ℕ) (e : Env) (h : List Call)
    → t.cnt_fd_socket ≤ length t.fd_socket
    → i < t.cnt_fd_socket
    → get_or t.fd_socket i 0 ≡ fd
    → ((k : ℕ) → k < i → (get_or t.fd_socket k 0 == fd) ≡ false)
    → (e (recv fd 1024 ∷ h)).ret ≡ some 0
    → serve_socket t fd e h ≡ ret (drop_socket t i) (close fd ∷ recv fd 1024 ∷ h)
unfolding serve_socket
serve_socket_closed t i fd e h size lt at first closed = rw closed (
    bind-ret (del_socket t fd) (λ x. pure x.1) e (recv fd 1024 ∷ h) (close fd ∷ recv fd 1024 ∷ h)
      (some i, drop_socket t i)
      (del_socket_takes_one t i fd e (recv fd 1024 ∷ h) size lt at first).0)

-- The socket at the last place but one closes its connection: the last socket is moved to its place,
-- and the loop ends without a `recv` on it, whether or not `select` reported it as ready.
moved_socket_skipped :
    (n : ℕ) (t : Sockets) (i fd : ℕ) (fds : List ℕ) (e : Env) (h : List Call)
    → t.cnt_fd_socket ≤ length t.fd_socket
    → t.cnt_fd_socket ≡ i + 2
    → get_or t.fd_socket i 0 ≡ fd
    → ((k : ℕ) → k < i → (get_or t.fd_socket k 0 == fd) ≡ false)
    → fd_isset fd fds ≡ true
    → (e (recv fd 1024 ∷ h)).ret ≡ some 0
    → (serve_loop (suc (suc n)) t i fds e h ≡ ret (drop_socket t i) (close fd ∷ recv fd 1024 ∷ h))
      × (get_or (drop_socket t i).fd_socket i 0 ≡ get_or t.fd_socket (i + 1) 0)
unfolding serve_loop drop_socket
moved_socket_skipped n t i fd fds e h size cnt at first ready closed =
    let more : ltb i t.cnt_fd_socket ≡ true = ground arith in
    let over : ltb (i + 1) (t.cnt_fd_socket - 1) ≡ false = ground arith in
    let inner : (i == t.cnt_fd_socket - 1) ≡ false = ground arith in
    let last : t.cnt_fd_socket - 1 ≡ i + 1 = omega arith in
    (
      rw (more, at, ready)
          (bind-ret (serve_socket t fd) (λ t'. serve_loop (suc n) t' (i + 1) fds) e h
              (close fd ∷ recv fd 1024 ∷ h) (drop_socket t i)
              (serve_socket_closed t i fd e h size (omega arith) at first closed)
            ∙ rw over refl),
      get_or-set_ne (move_last 0 t.fd_socket i t.cnt_fd_socket) (t.cnt_fd_socket - 1) i (2 ^ 32 - 1)
            0 (λ same. omega arith)
          ∙ rw inner (
              get_or-set_self t.fd_socket i (get_or t.fd_socket (t.cnt_fd_socket - 1) 0) 0
                (omega arith))
          ∙ ap (λ p. get_or t.fd_socket p 0) last,
    )

-- What `mk_fds` promises of one descriptor.
abbrev pub Watched : ℕ → Option ℕ × List ℕ → Type 0
Watched f (none, fds) = ⊥
Watched f (some m, fds) = f ≤ m × fd_isset f fds ≡ true

isset_cons : (f x : ℕ) (fds : List ℕ) → fd_isset f fds ≡ true → fd_isset f (x ∷ fds) ≡ true
unfolding fd_isset
isset_cons f x fds there = elim (Bool-cases (f == x)) [
  | inl y ↦ rw y refl
  | inr y ↦ rw (y, there) refl
]

isset_self : (f : ℕ) (fds : List ℕ) → fd_isset f (f ∷ fds) ≡ true
unfolding fd_isset
isset_self f fds = let same : (f == f) ≡ true = ground arith in rw same refl

collect_kept :
    (arr : List ℕ) (f i n : ℕ) (s : Option ℕ × List ℕ) → Watched f s → Watched f (collect arr i n s)
unfolding collect
collect_kept arr f i zero s w = w
collect_kept arr f i (suc n) (none, fds) w = absurd w
collect_kept arr f i (suc n) (some m, fds) (le, there) =
    collect_kept arr f (i + 1) n (some (max m (get_or arr i 0)), get_or arr i 0 ∷ fds)
      (omega arith, isset_cons f (get_or arr i 0) fds there)

collect_lem :
    (arr : List ℕ) (k i n : ℕ) (s : Option ℕ × List ℕ)
    → i ≤ k
    → k < i + n
    → Watched (get_or arr k 0) (collect arr i n s)
unfolding collect
collect_lem arr k i zero s lo hi = absurd (omega arith)
collect_lem arr k i (suc n) (none, fds) lo hi = elim (ℕ_discrete i k) [
  | no ne ↦
      collect_lem arr k (i + 1) n (some (get_or arr i 0), get_or arr i 0 ∷ fds) (omega arith)
        (omega arith)
  | yes e ↦
      let same : get_or arr k 0 ≡ get_or arr i 0 = ap (λ p. get_or arr p 0) (sym e) in
      rw same (
        collect_kept arr (get_or arr i 0) (i + 1) n (some (get_or arr i 0), get_or arr i 0 ∷ fds)
          (omega arith, isset_self (get_or arr i 0) fds))
]
collect_lem arr k i (suc n) (some m, fds) lo hi = elim (ℕ_discrete i k) [
  | no ne ↦
      collect_lem arr k (i + 1) n (some (max m (get_or arr i 0)), get_or arr i 0 ∷ fds)
        (omega arith) (omega arith)
  | yes e ↦
      let same : get_or arr k 0 ≡ get_or arr i 0 = ap (λ p. get_or arr p 0) (sym e) in
      rw same (
        collect_kept arr (get_or arr i 0) (i + 1) n
          (some (max m (get_or arr i 0)), get_or arr i 0 ∷ fds)
          (omega arith, isset_self (get_or arr i 0) fds))
]

-- Every live socket is in the set that `mk_fds` makes, and none is greater than its result.
mk_fds_lem :
    (t : Sockets) (k : ℕ) → k < t.cnt_fd_socket → Watched (get_or t.fd_socket k 0) (mk_fds t)
unfolding mk_fds
mk_fds_lem t k lt =
    collect_lem t.fd_socket k 0 t.cnt_fd_socket (none, []) (omega arith) (omega arith)
