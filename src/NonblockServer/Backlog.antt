-- ===== src/NonblockServer/Backlog.antt =====
-- The connections that wait at the listener of ALSP/io_poll_nb.c, and what becomes of them.
use temp.Base.{
  ℕ, zero, suc, ◌+◌, ◌-◌, ◌≡◌, ◌≤◌, ◌<◌, refl, ◌∙◌, ap, Option, none, some, List, [], ◌∷◌, ◌++◌,
  append_assoc, arith, Bool-cases, Option-cases, inl, inr, ltb, hit, count, length, length-set,
  take, get_or, set, get_or-set_ne, min, ◌==◌, if◌then◌else◌, length-append, true, false,
}
use temp.Base.History.{closes}
use temp.Base.Segment
use temp.Base.Sys.{Call, Env, ret, accept}
use temp.PollServer.{Pollfd, Table, blank, add_socket}
use temp.PollServer.Sockets.{live, holds}
use temp.NonblockServer.{accept_all}

-- The descriptors that `accept` of the listener `l` gave, in order.
abbrev pub given : Option ℕ → List ℕ
given none = []
given (some f) = f ∷ []

unfoldable pub arrivals : Env → ℕ → List Call → List ℕ
arrivals e l [] = []
arrivals e l (accept g ∷ h) =
    if g == l then arrivals e l h ++ given (e (accept g ∷ h)).ret else arrivals e l h
arrivals e l (_ ∷ h) = arrivals e l h

-- The array is whole, and the listener has its place.
abbrev pub HasListener : Table → ℕ → Type 0
HasListener t l =
    (length t.pollfds ≡ 255)
    × (t.cnt_fd_socket ≤ 255)
    × (1 ≤ t.cnt_fd_socket)
    × ((get_or t.pollfds 0 blank).fd ≡ l)

-- What becomes of the connections `s` that arrive: those for which there is room come into the table.
abbrev pub Enters : Table → List ℕ → Table → Type 0
Enters t s t' =
    ((f : ℕ) → live f t' ≡ live f t + count f (take (255 - t.cnt_fd_socket) s))
    × (t'.cnt_fd_socket ≡ min 255 (t.cnt_fd_socket + length s))

arrivals_accept :
    (e : Env) (l : ℕ) (h : List Call)
    → arrivals e l (accept l ∷ h) ≡ arrivals e l h ++ given (e (accept l ∷ h)).ret
unfolding arrivals
arrivals_accept e l h = let same : (l == l) ≡ true = ground arith in rw same refl

count-take_nil : (f k : ℕ) → count f (take k []) ≡ 0
count-take_nil f zero = refl
count-take_nil f (suc k) = refl

Enters-nil : (t : Table) → t.cnt_fd_socket ≤ 255 → Enters t [] t
Enters-nil t fits = (λ f. omega (arith, count-take_nil f (255 - t.cnt_fd_socket)), omega arith)

count-take_cons :
    (f g k : ℕ) (s : List ℕ) → count f (take (k + 1) (g ∷ s)) ≡ hit f g + count f (take k s)
count-take_cons f g k s = let e : k + 1 ≡ suc k = omega arith in rw e refl

-- The table with one more entry.
abbrev stored : Table → Pollfd → Table
stored t p = record {
  pollfds = set t.pollfds t.cnt_fd_socket p;
  cnt_fd_socket = t.cnt_fd_socket + 1;
}

stored-HasListener :
    (t : Table) (p : Pollfd) (l : ℕ)
    → HasListener t l
    → t.cnt_fd_socket < 255
    → HasListener (stored t p) l
stored-HasListener t p l (storage, fits, some_one, at) room = (
  length-set t.pollfds t.cnt_fd_socket p ∙ storage,
  omega arith,
  omega arith,
  ap (λ q. q.fd) (get_or-set_ne t.pollfds t.cnt_fd_socket 0 p blank (λ e. absurd (omega arith)))
      ∙ at,
)

Enters-room :
    (t t' : Table) (p : Pollfd) (s : List ℕ)
    → length t.pollfds ≡ 255
    → t.cnt_fd_socket < 255
    → Enters (stored t p) s t'
    → Enters t (p.fd ∷ s) t'
Enters-room t t' p s storage room (holding, number) =
    let n = t.cnt_fd_socket in
    let left : 255 - n ≡ 255 - (n + 1) + 1 = omega arith in
    (
      λ f. omega (
        arith,
        holding f,
        Segment.weight_push blank (holds f) t.pollfds n p (omega (arith, storage)),
        ap (λ k. count f (take k (p.fd ∷ s))) left,
        count-take_cons f p.fd (255 - (n + 1)) s,
      ),
      omega (arith, number),
    )

Enters-full :
    (t t' : Table) (fd : ℕ) (s : List ℕ)
    → t.cnt_fd_socket ≡ 255
    → Enters t s t'
    → Enters t (fd ∷ s) t'
Enters-full t t' fd s full (holding, number) =
    let none_left : 255 - t.cnt_fd_socket ≡ 0 = omega arith in
    let same : (f : ℕ) → live f t' ≡ live f t + count f (take 0 s) =
      λ f. rw none_left at (holding f) in
    (λ f. rw none_left (same f), omega (arith, number))

-- One connection more.
Enters-cons :
    (t t' : Table) (fd l : ℕ) (s : List ℕ)
    → HasListener t l
    → Enters (add_socket t fd).1 s t'
    → Enters t (fd ∷ s) t'
unfolding add_socket
Enters-cons t t' fd l s ok next = elim (Bool-cases (ltb t.cnt_fd_socket 255)) [
  | inl room ↦ Enters-room t t' _ s ok.0 (ground arith) (rw room at next)
  | inr full ↦
      Enters-full t t' fd s (omega (arith, ok.1, not_below t.cnt_fd_socket full)) (rw full at next)
]
  where
    not_below : (n : ℕ) → ltb n 255 ≡ false → 255 ≤ n
    not_below n e = ground arith

listener_stays : (t : Table) (fd l : ℕ) → HasListener t l → HasListener (add_socket t fd).1 l
unfolding add_socket
listener_stays t fd l ok = elim (Bool-cases (ltb t.cnt_fd_socket 255)) [
  | inl room ↦ rw room (stored-HasListener t _ l ok (ground arith))
  | inr full ↦ rw full ok
]

abbrev pub AllIn : ℕ → Table → ℕ → Env → List Call → Type 0
AllIn n t l e h =
    (t' : Table) × (h' : List Call) × (s : List ℕ) × (accept_all n t e h ≡ ret t' h')
    × (arrivals e l h' ≡ arrivals e l h ++ s)
    × Enters t s t'
    × ((f : ℕ) → closes f h' ≡ closes f h)

no_more :
    (n : ℕ) (t : Table) (l : ℕ) (e : Env) (h : List Call)
    → HasListener t l
    → (e (accept l ∷ h)).ret ≡ none
    → AllIn (suc n) t l e h
unfolding accept_all closes
no_more n t l e h ok x = (
  t,
  accept l ∷ h,
  [],
  rw (ok.3, x) refl,
  arrivals_accept e l h ∙ ap (λ o. arrivals e l h ++ given o) x,
  Enters-nil t ok.1,
  λ f. refl,
)

one_more :
    (n : ℕ) (t : Table) (l fd : ℕ) (e : Env) (h : List Call)
    → HasListener t l
    → (e (accept l ∷ h)).ret ≡ some fd
    → AllIn n (add_socket t fd).1 l e (accept l ∷ h)
    → AllIn (suc n) t l e h
unfolding accept_all closes
one_more n t l fd e h ok x (t', h', s, run, order, enters, unclosed) = (
  t',
  h',
  fd ∷ s,
  rw (ok.3, x) run,
  order
      ∙ ap (λ a. a ++ s) (arrivals_accept e l h ∙ ap (λ o. arrivals e l h ++ given o) x)
      ∙ append_assoc (arrivals e l h) (fd ∷ []) s,
  Enters-cons t t' fd l s ok enters,
  unclosed,
)

-- What the loop over `accept` does to the connections that wait at the listener of a table, when no more
-- than `waiting` ever arrive: it comes to its end, and of those that have arrived it has put the first
-- into the table, as many as the 255 places have room for. It closes none, so that every other one is
-- left open and in no place.
pub accept_all_lem :
    (n waiting : ℕ) (t : Table) (l : ℕ) (e : Env) (h : List Call)
    → HasListener t l
    → ((h' : List Call) → waiting ≤ length (arrivals e l h') → (e (accept l ∷ h')).ret ≡ none)
    → waiting ≤ length (arrivals e l h) + n
    → AllIn (suc n) t l e h
accept_all_lem zero waiting t l e h ok limit enough =
    no_more zero t l e h ok (limit h (omega arith))
accept_all_lem (suc k) waiting t l e h ok limit enough =
    elim (Option-cases (e (accept l ∷ h)).ret) [
      | inl x ↦ no_more (suc k) t l e h ok x
      | inr (fd, x) ↦
          let came : arrivals e l (accept l ∷ h) ≡ arrivals e l h ++ (fd ∷ []) =
            arrivals_accept e l h ∙ ap (λ o. arrivals e l h ++ given o) x in
          one_more (suc k) t l fd e h ok x (
            accept_all_lem k waiting (add_socket t fd).1 l e (accept l ∷ h)
              (listener_stays t fd l ok) limit
              (omega (arith, ap length came, length-append (arrivals e l h) (fd ∷ []))))
    ]
