-- ===== src/SignalServer/Signals.antt =====
-- How the server of ALSP/io_rts.c ends, and which sockets it closes.
use temp.Base.{
  ℕ, zero, suc, ◌+◌, ◌%◌, ◌≡◌, refl, ap, Option, none, some, List, [], ◌∷◌, arith, Bool-cases,
  Option-cases, inl, inr, hit, ◌==◌, get_or,
}
use temp.Base.History.{closes}
use temp.Base.Sys.{
  Call, Env, M, Out, ret, exit, running, fault, ◌>>=◌, accept, recv, getfl, setnb, getpid, setsig,
  setown, sigwaitinfo,
}
use temp.SignalServer.{
  add_rts_socket, sigrt_listen_io, sigrt_norm_io, take_bytes, sigrt_loop, start_sigrt,
}

abbrev pub if_end : Option ℕ → ℕ → ℕ
if_end (some zero) k = k
if_end _ k = 0

-- How often `recv` found the end of a connection.
unfoldable pub ends : Env → ℕ → List Call → ℕ
ends e f [] = 0
ends e f (recv g n ∷ h) = if_end (e (recv g n ∷ h)).ret (hit f g) + ends e f h
ends e f (_ ∷ h) = ends e f h

abbrev pub AllClosed : Env → List Call → Type 0
AllClosed e h = (f : ℕ) → closes f h ≡ ends e f h

-- Of a run that must come back.
abbrev Returns : {A : Type 0} → (List Call → Type 0) → Out A → Type 0
Returns P (ret a h) = P h
Returns P _ = ⊥

-- Of the server: while it runs, and when it returns, just the connections that have ended are closed; and
-- it returns only 0, after a failed `accept`.
abbrev pub Serves : Env → ℕ → Out ℕ → Type 0
Serves e l (ret c h) =
    (c ≡ 0) × AllClosed e h × ((t : List Call) × (h ≡ accept l ∷ t) × ((e h).ret ≡ none))
Serves e l (running h) = AllClosed e h
Serves e l (exit c h) = ⊥
Serves e l (fault h) = ⊥

Serves-bind :
    {A : Type 0} (e : Env) (l : ℕ) (m : M A) (next : M ℕ) (h : List Call)
    → Returns (AllClosed e) (m e h)
    → ((h' : List Call) → AllClosed e h' → Serves e l (next e h'))
    → Serves e l ((m >>= λ _. next) e h)
Serves-bind {A} e l m next h first rest = go (m e h) first
  where
    go :
        (o : Out A)
        → Returns (AllClosed e) o
        → Serves e l (elim o [
          | ret a h' ↦ next e h'
          | exit c h' ↦ exit c h'
          | running h' ↦ running h'
          | fault h' ↦ fault h'
        ])
    go (ret a h') p = rest h' p
    go (exit c h') p = p
    go (running h') p = absurd p
    go (fault h') p = p

add_rts_socket_lem :
    (e : Env) (fd i_sig : ℕ) (h : List Call)
    → AllClosed e h
    → Returns (AllClosed e) (add_rts_socket fd i_sig e h)
unfolding add_rts_socket closes ends
add_rts_socket_lem e fd i h b =
    let h₁ = getfl fd ∷ h in
    let h₃ = setsig fd i ∷ setnb fd ∷ h₁ in
    elim (Option-cases (e h₁).ret) [
      | inl x ↦ rw x b
      | inr (v, x) ↦ rw x (elim (Option-cases (e (setnb fd ∷ h₁)).ret) [
        | inl y ↦ rw y b
        | inr (w, y) ↦ rw y (elim (Option-cases (e h₃).ret) [
          | inl z ↦ rw z b
          | inr (u, z) ↦ rw z (elim (Option-cases (e (setown fd ∷ getpid ∷ h₃)).ret) [
            | inl o ↦ rw o b
            | inr (r, o) ↦ rw o b
          ])
        ])
      ])
    ]

take_bytes_lem :
    (e : Env) (fd : ℕ) (h : List Call) → AllClosed e h → Returns (AllClosed e) (take_bytes fd e h)
unfolding take_bytes closes ends
take_bytes_lem e fd h b = elim (Option-cases (e (recv fd 16384 ∷ h)).ret) [
  | inl x ↦ rw x (λ f. omega (arith, b f, ap (λ o. if_end o (hit f fd)) x))
  | inr (zero, x) ↦ rw x (λ f. omega (arith, b f, ap (λ o. if_end o (hit f fd)) x))
  | inr (suc k, x) ↦ rw x (λ f. omega (arith, b f, ap (λ o. if_end o (hit f fd)) x))
]

sigrt_loop_lem :
    (e : Env) (n l : ℕ) (h : List Call) → AllClosed e h → Serves e l (sigrt_loop n l e h)
unfolding sigrt_loop closes ends
sigrt_loop_lem e zero l h b = b
sigrt_loop_lem e (suc n) l h b =
    let h₁ = sigwaitinfo ∷ h in
    let again : (h' : List Call) → AllClosed e h' → Serves e l (sigrt_loop n l e h') =
      sigrt_loop_lem e n l in
    elim (Option-cases (e h₁).ret) [
      | inl x ↦ rw x (again h₁ b)
      | inr (suc (suc k), x) ↦ rw x (again h₁ b)
      | inr (suc zero, x) ↦
          let fd = get_or (e h₁).bytes 0 0 in
          rw x (elim (Bool-cases (get_or (e h₁).bytes 1 0 % 2 == 1)) [
            | inl y ↦ rw y (
                Serves-bind e l (take_bytes fd) (sigrt_loop n l) h₁ (take_bytes_lem e fd h₁ b)
                  again)
            | inr y ↦ rw y (again h₁ b)
          ])
      | inr (zero, x) ↦ rw x (elim (Option-cases (e (accept l ∷ h₁)).ret) [
        | inl y ↦ rw y (refl, b, (h₁, refl, y))
        | inr (fd, y) ↦ rw y (
            Serves-bind e l (add_rts_socket fd sigrt_norm_io) (sigrt_loop n l) (accept l ∷ h₁)
              (add_rts_socket_lem e fd sigrt_norm_io (accept l ∷ h₁) b) again)
      ])
    ]

-- `start_sigrt`, in any number of rounds and whatever the calls return, never ends the process itself. If
-- so far each descriptor was closed as often as a `recv` on it found the end of the connection, this holds
-- while it runs and when it returns. It returns only 0, and only when its last call, an `accept`, has
-- failed, for whatever reason.
pub start_sigrt_lem :
    (e : Env) (n l : ℕ) (h : List Call) → AllClosed e h → Serves e l (start_sigrt n l e h)
unfolding start_sigrt
start_sigrt_lem e n l h b =
    Serves-bind e l (add_rts_socket l sigrt_listen_io) (sigrt_loop n l) h
      (add_rts_socket_lem e l sigrt_listen_io h b) (sigrt_loop_lem e n l)
