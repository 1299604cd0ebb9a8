-- ===== src/PollServer/Sockets.antt =====
-- The socket table of ALSP/io_poll.c: its invariant, and what `add_socket` and `del_socket` do.
use native.Mathlib.Decide.{ℕ_discrete}
use temp.Base.{
  ℕ, zero, suc, ◌+◌, ◌-◌, ◌≤◌, ◌<◌, ◌≡◌, ◌≢◌, inl, inr, refl, sym, ◌∙◌, ap, Option, none, some, ◌∷◌,
  List, arith, ltb, Bool-cases, length, get_or, set, hit, length-set,
}
use temp.Base.Segment
use temp.Base.Segment.{weight, move_last}
use temp.Base.Sys.{Call, Env, ret, close}
use temp.PollServer.{
  no_fd, Pollfd, blank, Table, add_socket, find_fd, drop_entry, del_socket, new_table,
}

-- How often a descriptor stands in an entry, and in the live part of the table.
abbrev pub holds : ℕ → Pollfd → ℕ
holds f p = hit f p.fd

abbrev pub live : ℕ → Table → ℕ
live f t = weight blank (holds f) t.pollfds 0 t.cnt_fd_socket

-- The live entries are in bounds, and no descriptor stands in two of them (the kernel hands out a
-- descriptor only while it is not open).
pub record IsValid (t : Table) : Type 0 where
  pub storage : length t.pollfds ≡ 255
  pub fits : t.cnt_fd_socket ≤ 255
  pub distinct : (f : ℕ) → live f t ≤ 1

pub find_fd_lem :
    (arr : List Pollfd) (f i n m : ℕ)
    → i ≤ m
    → m < i + n
    → (get_or arr m blank).fd ≡ f
    → (k : ℕ) × (find_fd arr f i n ≡ some k) × (i ≤ k) × (k ≤ m) × ((get_or arr k blank).fd ≡ f)
unfolding find_fd
find_fd_lem arr f i zero m h g e = absurd (omega arith)
find_fd_lem arr f i (suc n) m h g e = elim (ℕ_discrete (get_or arr i blank).fd f) [
  | yes same ↦ (i, ground arith, omega arith, h, same)
  | no other ↦
      let (k, found, lo, hi, at) = find_fd_lem arr f (i + 1) n m (past other) (omega arith) e in
      (k, ground arith, omega arith, hi, at)
]
  where
    past : ((get_or arr i blank).fd ≢ f) → i + 1 ≤ m
    past other = elim (ℕ_discrete i m) [
      | yes same ↦ absurd (other (ap (λ p. (get_or arr p blank).fd) same ∙ e))
      | no ne ↦ omega arith
    ]

hit_self : (a b : ℕ) → b ≡ a → hit a b ≡ 1
hit_self a b e = ground arith

-- In a valid table the search for the descriptor at a live place finds that place.
pub find_fd-live :
    (t : Table) (m : ℕ)
    → IsValid t
    → m < t.cnt_fd_socket
    → find_fd t.pollfds (get_or t.pollfds m blank).fd 0 t.cnt_fd_socket ≡ some m
find_fd-live t m v h =
    let f = (get_or t.pollfds m blank).fd in
    let (k, found, lo, hi, at) =
      find_fd_lem t.pollfds f 0 t.cnt_fd_socket m (omega arith) (omega arith) refl in
    elim (ℕ_discrete k m) [
      | yes e ↦ found ∙ ap some e
      | no ne ↦ absurd (
          omega (
            arith,
            Segment.two-le-weight blank (holds f) t.pollfds 0 t.cnt_fd_socket k m (omega arith)
                (omega arith) (omega arith),
            v.distinct f,
            hit_self f (get_or t.pollfds k blank).fd at,
            hit_self f f refl,
          ))
    ]

-- The removal of the entry at place `m`, seen by any weight of entries from a place `j` up to it.
pub weight-drop_entry :
    (w : Pollfd → ℕ) (t : Table) (j m : ℕ)
    → length t.pollfds ≡ 255
    → t.cnt_fd_socket ≤ 255
    → j ≤ m
    → m < t.cnt_fd_socket
    → weight blank w (drop_entry t m).pollfds j (t.cnt_fd_socket - 1 - j)
        + w (get_or t.pollfds m blank)
      ≡ weight blank w t.pollfds j (t.cnt_fd_socket - j)
unfolding drop_entry
weight-drop_entry w t j m l c h g = omega (
  arith,
  Segment.weight-set_outside blank w (move_last blank t.pollfds m t.cnt_fd_socket) j
      (t.cnt_fd_socket - 1 - j) (t.cnt_fd_socket - 1)
      (record (get_or (move_last blank t.pollfds m t.cnt_fd_socket) (t.cnt_fd_socket - 1) blank) {
        fd = no_fd;
      })
      (inr (omega arith)),
  Segment.weight-move_last blank w t.pollfds m t.cnt_fd_socket j h g (omega arith),
)

length-drop_entry : (t : Table) (m : ℕ) → length (drop_entry t m).pollfds ≡ length t.pollfds
unfolding drop_entry
length-drop_entry t m =
    let arr = move_last blank t.pollfds m t.cnt_fd_socket in
    length-set arr (t.cnt_fd_socket - 1)
      (record (get_or arr (t.cnt_fd_socket - 1) blank) { fd = no_fd })
    ∙ Segment.length-move_last blank t.pollfds m t.cnt_fd_socket

pub cnt-drop_entry : (t : Table) (m : ℕ) → (drop_entry t m).cnt_fd_socket ≡ t.cnt_fd_socket - 1
unfolding drop_entry
cnt-drop_entry t m = refl

-- Removing a live entry takes one copy of its descriptor out of the table and keeps every other.
pub live-drop_entry :
    (f : ℕ) (t : Table) (m : ℕ)
    → IsValid t
    → m < t.cnt_fd_socket
    → live f (drop_entry t m) + hit f (get_or t.pollfds m blank).fd ≡ live f t
live-drop_entry f t m v h =
    let less : t.cnt_fd_socket - 1 - 0 ≡ t.cnt_fd_socket - 1 = omega arith in
    let all : t.cnt_fd_socket - 0 ≡ t.cnt_fd_socket = omega arith in
    let part =
      ap (weight blank (holds f) (drop_entry t m).pollfds 0) (less ∙ sym (cnt-drop_entry t m)) in
    let whole = ap (weight blank (holds f) t.pollfds 0) all in
    omega (arith, weight-drop_entry (holds f) t 0 m v.storage v.fits (omega arith) h, part, whole)

pub drop_entry-IsValid :
    (t : Table) (m : ℕ) → IsValid t → m < t.cnt_fd_socket → IsValid (drop_entry t m)
drop_entry-IsValid t m v h = record {
  storage = length-drop_entry t m ∙ v.storage;
  fits = omega (arith, cnt-drop_entry t m, v.fits);
  distinct = λ f. omega (arith, live-drop_entry f t m v h, v.distinct f);
}

pub new_table-IsValid : IsValid new_table
new_table-IsValid = record { storage = refl; fits = omega arith; distinct = λ f. omega arith }

-- What `add_socket` promises: a full table is refused and left as it is; otherwise the count goes up
-- by one, just the new descriptor is added, and the table stays valid.
abbrev pub Added : Table → ℕ → Option ℕ × Table → Type 0
Added t fd (none, t') = (t.cnt_fd_socket ≡ 255) × (t' ≡ t)
Added t fd (some n, t') =
    (n ≡ t.cnt_fd_socket + 1)
    × (t'.cnt_fd_socket ≡ n)
    × ((f : ℕ) → live f t' ≡ live f t + hit f fd)
    × IsValid t'

live_push :
    (t : Table) (p : Pollfd) (f : ℕ)
    → IsValid t
    → t.cnt_fd_socket < 255
    → live f
        (record { pollfds = set t.pollfds t.cnt_fd_socket p; cnt_fd_socket = t.cnt_fd_socket + 1 })
      ≡ live f t + hit f p.fd
live_push t p f v h =
    Segment.weight_push blank (holds f) t.pollfds t.cnt_fd_socket p (omega (arith, v.storage))

hit-le-one : (a b : ℕ) → hit a b ≤ 1
hit-le-one a b = ground arith

hit_ne : (a b : ℕ) → a ≢ b → hit a b ≡ 0
hit_ne a b n = ground arith

distinct_push : (t : Table) (fd f : ℕ) → IsValid t → live fd t ≡ 0 → live f t + hit f fd ≤ 1
distinct_push t fd f v new = elim (ℕ_discrete f fd) [
  | yes e ↦ omega (arith, ap (λ g. live g t) e, hit-le-one f fd)
  | no ne ↦ omega (arith, hit_ne f fd ne, v.distinct f)
]

-- `add_socket` of a descriptor that is not in a valid table: with 255 sockets it is refused and the
-- table stays as it is; with fewer the new count is returned, the descriptor is added once, every
-- other stays as often as it was, and the table stays valid.
pub add_socket_lem : (t : Table) (fd : ℕ) → IsValid t → live fd t ≡ 0 → Added t fd (add_socket t fd)
unfolding add_socket
add_socket_lem t fd v new = elim (Bool-cases (ltb t.cnt_fd_socket 255)) [
  | inl room ↦
      let h : t.cnt_fd_socket < 255 = ground arith in
      rw room (
        refl,
        refl,
        (λ f. live_push t _ f v h),
        record {
          storage = length-set t.pollfds t.cnt_fd_socket _ ∙ v.storage;
          fits = omega arith;
          distinct = λ f. omega (arith, live_push t _ f v h, distinct_push t fd f v new);
        },
      )
  | inr full ↦ rw full (ground arith, refl)
]

-- `del_socket` of the descriptor at a live place of a valid table closes it, returns this place, takes
-- just this descriptor out of the table, and leaves the table valid.
del_socket_lem :
    (t : Table) (m : ℕ) (e : Env) (h : List Call)
    → IsValid t
    → m < t.cnt_fd_socket
    → (t' : Table) × (del_socket t (get_or t.pollfds m blank).fd e h
        ≡ ret (some m, t') (close (get_or t.pollfds m blank).fd ∷ h))
      × IsValid t'
      × ((f : ℕ) → live f t' + hit f (get_or t.pollfds m blank).fd ≡ live f t)
unfolding del_socket
del_socket_lem t m e h v lt = (
  drop_entry t m,
  rw (find_fd-live t m v lt) refl,
  drop_entry-IsValid t m v lt,
  λ f. live-drop_entry f t m v lt,
)
