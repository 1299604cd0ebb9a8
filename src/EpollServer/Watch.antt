-- ===== src/EpollServer/Watch.antt =====
-- The connections of ALSP/io_epoll.c: which descriptors its epoll set holds, and which are closed.
use temp.Base.{
  ℕ, zero, suc, ◌+◌, ◌≡◌, ◌≤◌, refl, ap, false, Option, none, some, List, [], ◌∷◌, arith,
  Bool-cases, Option-cases, inl, inr, hit, ◌==◌, ltb,
}
use temp.Base.Sys.{
  Call, Env, M, Out, ret, exit, running, fault, sys, ◌>>=◌, accept, epoll_add, epoll_del, close,
  getfl, setnb, recv, epoll_wait, getaddrinfo, socket, setsockopt, bind, listen, epoll_create,
  malloc,
}
use temp.EpollServer.{
  add_ev, del_ev, checked, fcntl_setnb, accept_loop, receive, Event, handle_event, handle_events,
  events_of, rounds, required, watch, main,
}

abbrev pub if_done : Option ℕ → ℕ → ℕ
if_done none k = 0
if_done (some _) k = k

abbrev pub if_got : Option ℕ → ℕ → ℕ
if_got none f = 0
if_got (some g) f = hit f g

-- How often `accept` gave a descriptor, and how often it was put into an epoll set, taken out of one, and
-- closed.
unfoldable pub accepts : Env → ℕ → List Call → ℕ
accepts e f [] = 0
accepts e f (accept l ∷ h) = if_got (e (accept l ∷ h)).ret f + accepts e f h
accepts e f (_ ∷ h) = accepts e f h

unfoldable pub adds : Env → ℕ → List Call → ℕ
adds e f [] = 0
adds e f (epoll_add efd g ∷ h) = if_done (e (epoll_add efd g ∷ h)).ret (hit f g) + adds e f h
adds e f (_ ∷ h) = adds e f h

unfoldable pub drops : Env → ℕ → List Call → ℕ
drops e f [] = 0
drops e f (epoll_del efd g ∷ h) = if_done (e (epoll_del efd g ∷ h)).ret (hit f g) + drops e f h
drops e f (_ ∷ h) = drops e f h

unfoldable pub closings : ℕ → List Call → ℕ
closings f [] = 0
closings f (close g ∷ h) = hit f g + closings f h
closings f (_ ∷ h) = closings f h

-- Every connection and the listener `l` have been put into the epoll set, and just those taken out of
-- it again are closed.
abbrev pub Balanced : Env → ℕ → List Call → Type 0
Balanced e l h = (f : ℕ) → (adds e f h ≡ hit f l + accepts e f h) × (closings f h ≡ drops e f h)

-- Of a run: it goes on with `P`, or it has ended with 1 because its last call failed.
abbrev pub Lasts : {A : Type 0} → Env → (List Call → Type 0) → Out A → Type 0
Lasts e P (ret a h) = P h
Lasts e P (running h) = P h
Lasts e P (exit c h) = (c ≡ 1) × ((e h).ret ≡ none)
Lasts e P (fault h) = ⊥

Lasts-bind :
    {A B : Type 0} (e : Env) (P : List Call → Type 0) (m : M A) (f : A → M B) (h : List Call)
    → Lasts e P (m e h)
    → ((a : A) (h' : List Call) → P h' → Lasts e P (f a e h'))
    → Lasts e P ((m >>= f) e h)
Lasts-bind {A} {B} e P m f h first next = go (m e h) first
  where
    go :
        (o : Out A)
        → Lasts e P o
        → Lasts e P (elim o [
          | ret a h' ↦ f a e h'
          | exit c h' ↦ exit c h'
          | running h' ↦ running h'
          | fault h' ↦ fault h'
        ])
    go (ret a h') p = next a h' p
    go (exit c h') p = p
    go (running h') p = p
    go (fault h') p = p

module _ (e : Env) where
  with_setnb :
      (P : List Call → Type 0) (fd : ℕ) (next : M (Unit {0})) (h : List Call)
      → Lasts e P (next e (setnb fd ∷ getfl fd ∷ h))
      → Lasts e P ((fcntl_setnb fd >>= λ _. next) e h)
  unfolding fcntl_setnb
  with_setnb P fd next h ok = elim (Option-cases (e (setnb fd ∷ getfl fd ∷ h)).ret) [
    | inl x ↦ rw x ok
    | inr (v, x) ↦ rw x ok
  ]

  with_add :
      (P : List Call → Type 0) (efd fd : ℕ) (h : List Call)
      → ((k : ℕ) → (e (epoll_add efd fd ∷ h)).ret ≡ some k → P (epoll_add efd fd ∷ h))
      → Lasts e P (checked (add_ev efd fd) e h)
  unfolding checked add_ev
  with_add P efd fd h ok = elim (Option-cases (e (epoll_add efd fd ∷ h)).ret) [
    | inl x ↦ rw x (refl, x)
    | inr (v, x) ↦ rw x (ok v x)
  ]

  with_required :
      {A : Type 0} (P : List Call → Type 0) (c : Call) (next : ℕ → M A) (h : List Call)
      → ((k : ℕ) → (e (c ∷ h)).ret ≡ some k → Lasts e P (next k e (c ∷ h)))
      → Lasts e P ((required c >>= next) e h)
  with_required P c next h ok = elim (Option-cases (e (c ∷ h)).ret) [
    | inl x ↦ rw x (refl, x)
    | inr (v, x) ↦ rw x (ok v x)
  ]

module _ (e : Env) (l efd : ℕ) where
  -- A connection that `accept` has just given is put into the set.
  enrolled :
      (fd k : ℕ) (h : List Call)
      → Balanced e l h
      → (e (accept l ∷ h)).ret ≡ some fd
      → (e (epoll_add efd fd ∷ setnb fd ∷ getfl fd ∷ accept l ∷ h)).ret ≡ some k
      → Balanced e l (epoll_add efd fd ∷ setnb fd ∷ getfl fd ∷ accept l ∷ h)
  unfolding accepts adds drops closings
  enrolled fd k h b x y f =
      (omega (arith, (b f).0, ap (λ o. if_got o f) x, ap (λ o. if_done o (hit f fd)) y), (b f).1)

  accept_loop_lem :
      (n : ℕ) (h : List Call) → Balanced e l h → Lasts e (Balanced e l) (accept_loop n efd l e h)
  unfolding accept_loop accepts adds drops closings
  accept_loop_lem zero h b = b
  accept_loop_lem (suc n) h b = elim (Option-cases (e (accept l ∷ h)).ret) [
    | inl x ↦ rw x (λ f. (omega (arith, (b f).0, ap (λ o. if_got o f) x), (b f).1))
    | inr (fd, x) ↦
        let start = setnb fd ∷ getfl fd ∷ accept l ∷ h in
        rw x (
          with_setnb e (Balanced e l) fd (checked (add_ev efd fd) >>= λ _. accept_loop n efd l)
            (accept l ∷ h)
            (Lasts-bind e (Balanced e l) (checked (add_ev efd fd)) (λ _. accept_loop n efd l) start
              (with_add e (Balanced e l) efd fd start (λ k y. enrolled fd k h b x y))
              (λ _ h' b'. accept_loop_lem n h' b')))
  ]

  receive_lem :
      (fd : ℕ) (h : List Call) → Balanced e l h → Lasts e (Balanced e l) (receive efd fd e h)
  unfolding receive del_ev checked accepts adds drops closings
  receive_lem fd h b = elim (Option-cases (e (recv fd 1024 ∷ h)).ret) [
    | inl x ↦ rw x b
    | inr (suc k, x) ↦ rw x b
    | inr (zero, x) ↦
        let h' = epoll_del efd fd ∷ recv fd 1024 ∷ h in
        rw x (elim (Option-cases (e h').ret) [
          | inl y ↦ rw y (refl, y)
          | inr (k, y) ↦
              rw y (λ f. ((b f).0, omega (arith, (b f).1, ap (λ o. if_done o (hit f fd)) y)))
        ])
  ]

  handle_event_lem :
      (n : ℕ) (ev : Event) (h : List Call)
      → Balanced e l h
      → Lasts e (Balanced e l) (handle_event n efd l ev e h)
  unfolding handle_event accepts adds drops closings
  handle_event_lem n ev h b = elim (Bool-cases ev.epollin) [
    | inl y ↦ rw y (elim (Bool-cases (ev.fd == l)) [
      | inl z ↦ rw z (accept_loop_lem n h b)
      | inr z ↦ rw z (receive_lem ev.fd h b)
    ])
    | inr y ↦ rw y (elim (Bool-cases ev.epollpri) [ inl z ↦ rw z b | inr z ↦ rw z b ])
  ]

  handle_events_lem :
      (n : ℕ) (evs : List Event) (h : List Call)
      → Balanced e l h
      → Lasts e (Balanced e l) (handle_events n efd l evs e h)
  unfolding handle_events
  handle_events_lem n [] h b = b
  handle_events_lem n (ev ∷ evs) h b =
      Lasts-bind e (Balanced e l) (handle_event n efd l ev) (λ _. handle_events n efd l evs) h
        (handle_event_lem n ev h b) (λ _ h' b'. handle_events_lem n evs h' b')

  rounds_lem :
      (n : ℕ) (h : List Call) → Balanced e l h → Lasts e (Balanced e l) (rounds n efd l e h)
  unfolding rounds accepts adds drops closings
  rounds_lem zero h b = b
  rounds_lem (suc n) h b =
      let h₁ = epoll_wait efd ∷ h in
      let evs : List Event = elim (e h₁).ret [ none ↦ [] | some k ↦ events_of (e h₁).bytes k ] in
      Lasts-bind e (Balanced e l) (handle_events n efd l evs) (λ _. rounds n efd l) h₁
        (handle_events_lem n evs h₁ b) (λ _ h' b'. rounds_lem n h' b')

-- Nothing is accepted, put into a set, taken out of one or closed yet.
abbrev Untouched : Env → List Call → Type 0
Untouched e h =
    (f : ℕ) → (adds e f h ≡ 0) × (accepts e f h ≡ 0) × (closings f h ≡ 0) × (drops e f h ≡ 0)

listening :
    (e : Env) (l efd k : ℕ) (h : List Call)
    → Untouched e h
    → (e (epoll_add efd l ∷ h)).ret ≡ some k
    → Balanced e l (epoll_add efd l ∷ h)
unfolding accepts adds drops closings
listening e l efd k h u x f =
    let (a, b, c, d) = u f in
    (omega (arith, a, b, ap (λ o. if_done o (hit f l)) x), omega (arith, c, d))

watch_lem :
    (e : Env) (n l : ℕ) (h : List Call) → Untouched e h → Lasts e (Balanced e l) (watch n l e h)
unfolding watch accepts adds drops closings
watch_lem e n l h u =
    let P = Balanced e l in
    let enter : ℕ → M (Unit {0}) = λ efd. checked (add_ev efd l) >>= λ _. rounds n efd l in
    let allocate : ℕ → M (Unit {0}) = λ efd. required (malloc 256) >>= λ _. enter efd in
    let started : M (Unit {0}) = sys (listen l) >>= λ _. required epoll_create >>= allocate in
    let bound : M (Unit {0}) = required (bind l) >>= λ _. started in
    let h₁ = setnb l ∷ getfl l ∷ h in
    let h₂ = listen l ∷ bind l ∷ h₁ in
    let h₄ = malloc 256 ∷ epoll_create ∷ h₂ in
    with_setnb e P l bound h (
      with_required e P (bind l) (λ _. started) h₁
        (λ _ _. with_required e P epoll_create allocate h₂ (λ efd _.
          with_required e P (malloc 256) (λ _. enter efd) (epoll_create ∷ h₂)
            (λ _ _.
              Lasts-bind e P (checked (add_ev efd l)) (λ _. rounds n efd l) h₄
                (with_add e P efd l h₄ (λ k x. listening e l efd k h₄ u x))
                (λ _ h' b. rounds_lem e l efd n h' b)))))

Lasts-map :
    {A : Type 0} (e : Env) {P Q : List Call → Type 0} (o : Out A)
    → ((h : List Call) → P h → Q h)
    → Lasts e P o
    → Lasts e Q o
Lasts-map e (ret a h) g p = g h p
Lasts-map e (running h) g p = g h p
Lasts-map e (exit c h) g p = p
Lasts-map e (fault h) g p = p

-- The server with at most one argument, in any number of rounds and whatever the calls return: while it
-- runs, each descriptor has been put into the epoll set as often as `accept` gave it, the socket made
-- at the start once more, and it has been closed just as often as it was taken out of the set. The server ends only with 1,
-- and only because its last call has failed.
pub epoll_main_lem :
    (e : Env) (argc n : ℕ)
    → argc ≤ 2
    → Lasts e
        (λ h. (l : ℕ) × ((e (socket ∷ getaddrinfo ∷ [])).ret ≡ some l) × Balanced e l h)
        (main argc n e [])
unfolding main accepts adds drops closings
epoll_main_lem e argc n few =
    let P : List Call → Type 0 =
      λ h. (l : ℕ) × ((e (socket ∷ getaddrinfo ∷ [])).ret ≡ some l) × Balanced e l h in
    let fits : ltb 2 argc ≡ false = ground arith in
    let ready : ℕ → M (Unit {0}) = λ l. required (setsockopt l) >>= λ _. watch n l in
    let made : M (Unit {0}) = required socket >>= ready in
    let h = socket ∷ getaddrinfo ∷ [] in
    rw fits (
      with_required e P getaddrinfo (λ _. made) []
        (λ _ _. with_required e P socket ready (getaddrinfo ∷ []) (λ l x.
          with_required e P (setsockopt l) (λ _. watch n l) h
            (λ _ _.
              Lasts-map e (watch n l e (setsockopt l ∷ h)) (λ h' b. (l, x, b))
                (watch_lem e n l (setsockopt l ∷ h) (λ f. (refl, refl, refl, refl)))))))
