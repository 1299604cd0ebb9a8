-- ===== src/EchoServer/Echo.antt =====
-- What the processes of ALSP/inet_tcp_serv1.c send back, and what they close.
use temp.Base.{
  ℕ, zero, suc, ◌+◌, ◌≡◌, refl, sym, ◌∙◌, ap, Option, none, some, List, [], ◌∷◌, ◌++◌, arith,
  Bool-cases, Option-cases, inl, inr, hit, ◌==◌, if◌then◌else◌, length, take, append-nil,
}
use temp.Base.History.{closes}
use temp.Base.Traffic.{accepted, stream, take_all}
use temp.Base.Sys.{
  Call, Errno, Env, M, Out, ret, exit, running, fault, pure, ◌>>=◌, accept, recv, send, close,
}
use temp.EchoServer.{no_fd, serve_conn, start_child}

-- The bytes that `recv` gave from a descriptor, in order.
unfoldable pub heard : Env → ℕ → List Call → List ℕ
heard e f [] = []
heard e f (recv g n ∷ h) =
    if g == f
    then heard e f h ++ accepted (e (recv g n ∷ h)).ret (e (recv g n ∷ h)).bytes
    else heard e f h
heard e f (_ ∷ h) = heard e f h

-- Every byte that came in on a descriptor went out on it, in order.
abbrev pub Echoed : Env → List Call → Type 0
Echoed e h = (f : ℕ) → stream e f h ≡ heard e f h

-- How often a descriptor was hung up on: `recv` found its end, a `send` to it failed, or `accept` failed,
-- after which the program closes -1.
abbrev pub if_end : Option ℕ → ℕ → ℕ
if_end (some zero) k = k
if_end _ k = 0

abbrev pub if_none : Option ℕ → ℕ → ℕ
if_none none k = k
if_none (some _) k = 0

unfoldable pub hangups : Env → ℕ → List Call → ℕ
hangups e f [] = 0
hangups e f (recv g n ∷ h) = if_end (e (recv g n ∷ h)).ret (hit f g) + hangups e f h
hangups e f (send g text ∷ h) = if_none (e (send g text ∷ h)).ret (hit f g) + hangups e f h
hangups e f (accept l ∷ h) = if_none (e (accept l ∷ h)).ret (hit f no_fd) + hangups e f h
hangups e f (_ ∷ h) = hangups e f h

-- Of one connection: while it is served, and when that is over, `P` holds.
abbrev Served : (List Call → Type 0) → Out (Unit {0}) → Type 0
Served P (ret a h) = P h
Served P (running h) = P h
Served P _ = ⊥

-- Of a process that goes on for ever: `P` holds while it does.
abbrev pub Endless : (List Call → Type 0) → Out (Unit {0}) → Type 0
Endless P (running h) = P h
Endless P _ = ⊥

-- What each exchange of a process keeps.
record IsKept (e : Env) (P : List Call → Type 0) : Type 0 where
  recv_fails : (f : ℕ) (h : List Call) → P h → (e (recv f 40 ∷ h)).ret ≡ none → P (recv f 40 ∷ h)
  recv_ends :
      (f : ℕ) (h : List Call) → P h → (e (recv f 40 ∷ h)).ret ≡ some 0 → P (close f ∷ recv f 40 ∷ h)
  sends :
      (f k m : ℕ) (h : List Call)
      → P h
      → (e (recv f 40 ∷ h)).ret ≡ some (suc k)
      → (e (send f (take (suc k) (e (recv f 40 ∷ h)).bytes) ∷ recv f 40 ∷ h)).ret ≡ some m
      → P (send f (take (suc k) (e (recv f 40 ∷ h)).bytes) ∷ recv f 40 ∷ h)
  send_fails :
      (f k : ℕ) (h : List Call)
      → P h
      → (e (recv f 40 ∷ h)).ret ≡ some (suc k)
      → (e (send f (take (suc k) (e (recv f 40 ∷ h)).bytes) ∷ recv f 40 ∷ h)).ret ≡ none
      → P (close f ∷ send f (take (suc k) (e (recv f 40 ∷ h)).bytes) ∷ recv f 40 ∷ h)
  accepts : (f k : ℕ) (h : List Call) → P h → (e (accept f ∷ h)).ret ≡ some k → P (accept f ∷ h)
  accept_fails :
      (f : ℕ) (h : List Call) → P h → (e (accept f ∷ h)).ret ≡ none → P (close no_fd ∷ accept f ∷ h)

module _ (e : Env) (P : List Call → Type 0) (v : IsKept e P) where
  serve_conn_keeps : (n cfd : ℕ) (h : List Call) → P h → Served P (serve_conn n cfd e h)
  unfolding serve_conn
  serve_conn_keeps zero cfd h b = b
  serve_conn_keeps (suc n) cfd h b = elim (Option-cases (e (recv cfd 40 ∷ h)).ret) [
    | inl x ↦
        let h₁ = recv cfd 40 ∷ h in
        let b' = v.recv_fails cfd h b x in
        rw x (by_errno n cfd h₁ (e h₁).errno b' (serve_conn_keeps n cfd h₁ b'))
    | inr (zero, x) ↦ rw x (v.recv_ends cfd h b x)
    | inr (suc k, x) ↦
        let h₂ = send cfd (take (suc k) (e (recv cfd 40 ∷ h)).bytes) ∷ recv cfd 40 ∷ h in
        rw x (elim (Option-cases (e h₂).ret) [
          | inl y ↦ rw y (serve_conn_keeps n cfd (close cfd ∷ h₂) (v.send_fails cfd k h b x y))
          | inr (m, y) ↦ rw y (serve_conn_keeps n cfd h₂ (v.sends cfd k m h b x y))
        ])
  ]
    where
      by_errno :
          (n cfd : ℕ) (h : List Call) (c : Errno)
          → P h
          → Served P (serve_conn n cfd e h)
          → Served P
              ((elim c as (λ _. M (Unit {0})) [ Errno.eintr ↦ serve_conn n cfd | _ ↦ pure tt ]) e h)
      by_errno n cfd h Errno.eintr p q = q
      by_errno n cfd h Errno.eagain p q = p
      by_errno n cfd h Errno.eexist p q = p
      by_errno n cfd h Errno.einval p q = p
      by_errno n cfd h Errno.ebusy p q = p
      by_errno n cfd h Errno.enoent p q = p
      by_errno n cfd h Errno.other p q = p

  next_conn :
      (m : M (Unit {0})) (next : M (Unit {0})) (h : List Call)
      → Served P (m e h)
      → ((h' : List Call) → P h' → Endless P (next e h'))
      → Endless P ((m >>= λ _. next) e h)
  next_conn m next h first rest = go (m e h) first
    where
      go :
          (o : Out (Unit {0}))
          → Served P o
          → Endless P (elim o [
            | ret a h' ↦ next e h'
            | exit c h' ↦ exit c h'
            | running h' ↦ running h'
            | fault h' ↦ fault h'
          ])
      go (ret a h') p = rest h' p
      go (exit c h') p = p
      go (running h') p = p
      go (fault h') p = p

  start_child_keeps : (n sfd : ℕ) (h : List Call) → P h → Endless P (start_child n sfd e h)
  unfolding start_child
  start_child_keeps zero sfd h b = b
  start_child_keeps (suc n) sfd h b = elim (Option-cases (e (accept sfd ∷ h)).ret) [
    | inl x ↦
        rw x (start_child_keeps n sfd (close no_fd ∷ accept sfd ∷ h) (v.accept_fails sfd h b x))
    | inr (cfd, x) ↦
        let h₁ = accept sfd ∷ h in
        rw x (
          next_conn (serve_conn n cfd) (start_child n sfd) h₁
            (serve_conn_keeps n cfd h₁ (v.accepts sfd cfd h b x))
            (λ h' b'. start_child_keeps n sfd h' b'))
  ]

-- A `send` takes the whole text, and does not fail.
abbrev pub WholeSends : Env → Type 0
WholeSends e =
    (f : ℕ) (text : List ℕ) (h : List Call) → (e (send f text ∷ h)).ret ≡ some (length text)

module _ (e : Env) where
  -- A `recv` that gives nothing.
  quiet_recv :
      (cfd : ℕ) (h : List Call) {o : Option ℕ}
      → Echoed e h
      → (e (recv cfd 40 ∷ h)).ret ≡ o
      → ((text : List ℕ) → accepted o text ≡ [])
      → Echoed e (recv cfd 40 ∷ h)
  unfolding stream heard
  quiet_recv cfd h b x nothing f = elim (Bool-cases (cfd == f)) [
    | inl y ↦ rw (y, x, nothing (e (recv cfd 40 ∷ h)).bytes) (b f ∙ sym (append-nil (heard e f h)))
    | inr y ↦ rw y (b f)
  ]

  echo_step :
      (cfd k : ℕ) (h : List Call)
      → WholeSends e
      → Echoed e h
      → (e (recv cfd 40 ∷ h)).ret ≡ some k
      → Echoed e (send cfd (take k (e (recv cfd 40 ∷ h)).bytes) ∷ recv cfd 40 ∷ h)
  unfolding stream heard
  echo_step cfd k h whole b x f = elim (Bool-cases (cfd == f)) [
    | inl y ↦
        let text = take k (e (recv cfd 40 ∷ h)).bytes in
        rw (y, x, whole cfd text (recv cfd 40 ∷ h), take_all (length text) text (omega arith), b f)
          refl
    | inr y ↦ rw y (b f)
  ]

  Echoed-IsKept : WholeSends e → IsKept e (Echoed e)
  unfolding stream heard
  Echoed-IsKept whole = record {
    recv_fails = λ f h b x. quiet_recv f h b x (λ t. refl);
    recv_ends = λ f h b x. quiet_recv f h b x (λ t. refl);
    sends = λ f k m h b x y. echo_step f (suc k) h whole b x;
    send_fails = λ f k h b x y. echo_step f (suc k) h whole b x;
    accepts = λ f k h b x. b;
    accept_fails = λ f h b x. b;
  }

  HungUp : List Call → Type 0
  HungUp h = (f : ℕ) → closes f h ≡ hangups e f h

  HungUp-IsKept : IsKept e HungUp
  unfolding HungUp closes hangups
  HungUp-IsKept = record {
    recv_fails = λ g h b x f. omega (arith, b f, ap (λ o. if_end o (hit f g)) x);
    recv_ends = λ g h b x f. omega (arith, b f, ap (λ o. if_end o (hit f g)) x);
    sends = λ g k m h b x y f.
        omega (arith, b f, ap (λ o. if_end o (hit f g)) x, ap (λ o. if_none o (hit f g)) y);
    send_fails = λ g k h b x y f.
        omega (arith, b f, ap (λ o. if_end o (hit f g)) x, ap (λ o. if_none o (hit f g)) y);
    accepts = λ l k h b x f. omega (arith, b f, ap (λ o. if_none o (hit f no_fd)) x);
    accept_fails = λ l h b x f. omega (arith, b f, ap (λ o. if_none o (hit f no_fd)) x);
  }

-- `start_child` of inet_tcp_serv1.c and unix_tcp_serv.c, for any number of rounds, when every `send` takes
-- the whole text: it never comes back, and on every connection exactly the bytes that came in have gone
-- out, in order, if this was so at the start.
pub start_child_echoes :
    (e : Env) (n sfd : ℕ) (h : List Call)
    → WholeSends e
    → Echoed e h
    → Endless (Echoed e) (start_child n sfd e h)
start_child_echoes e n sfd h whole b =
    start_child_keeps e (Echoed e) (Echoed-IsKept e whole) n sfd h b

-- `start_child`, whatever the calls return: from a start where this holds, a descriptor is closed once for
-- every end of it that `recv` found and once for every `send` to it that failed, and -1 is closed for every
-- failed `accept`. So a connection whose `recv` fails is left open.
pub start_child_hangs_up :
    (e : Env) (n sfd : ℕ) (h : List Call)
    → ((f : ℕ) → closes f h ≡ hangups e f h)
    → Endless (λ h'. (f : ℕ) → closes f h' ≡ hangups e f h') (start_child n sfd e h)
unfolding HungUp
start_child_hangs_up e n sfd h b = start_child_keeps e (HungUp e) (HungUp-IsKept e) n sfd h b
