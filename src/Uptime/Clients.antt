-- ===== src/Uptime/Clients.antt =====
-- The connections and commands of `serve` of APUE/server_stream.c.
use temp.Base.{
  ℕ, zero, suc, ◌+◌, ◌≡◌, ◌≤◌, ◌<◌, inl, inr, refl, ap, Option, none, some, List, [], ◌∷◌, length,
  lt→ltb, arith, Option-cases,
}
use temp.Base.History.{closes}
use temp.Base.Sys.{
  Call, Env, M, Out, ret, exit, running, fault, ◌>>=◌, accept, popen, pclose, fgets, getfd,
}
use temp.Daemon.{set_cloexec}
use temp.Uptime.{error_text, send_lines, serve_client, serve_loop, run_command, end_client}
use temp.Uptime.Retry.{is_hit}

-- How often a descriptor came from `accept`, the commands started, and those waited for.
unfoldable pub taken : Env → ℕ → List Call → ℕ
taken e f [] = 0
taken e f (accept l ∷ h) = is_hit f (e (accept l ∷ h)).ret + taken e f h
taken e f (_ ∷ h) = taken e f h

abbrev pub one_if : Option ℕ → ℕ
one_if none = 0
one_if (some _) = 1

unfoldable pub started : Env → List Call → ℕ
started e [] = 0
started e (popen ∷ h) = one_if (e (popen ∷ h)).ret + started e h
started e (_ ∷ h) = started e h

unfoldable pub waited : List Call → ℕ
waited [] = 0
waited (pclose ∷ h) = suc (waited h)
waited (_ ∷ h) = waited h

-- Every connection is closed but the one of `p`, and `q` commands are not waited for.
abbrev pub AllClosedBut : Env → Option ℕ → ℕ → List Call → Type 0
AllClosedBut e p q h =
    ((f : ℕ) → closes f h + is_hit f p ≡ taken e f h) × (started e h ≡ waited h + q)

-- A run that returns with `R`, ends with all closed, or still has at most one connection and one command open.
abbrev pub Serves : Env → (ℕ → Type 0) → (List Call → Type 0) → Out (Unit {0}) → Type 0
Serves e Status R (ret a h) = R h
Serves e Status R (exit c h) = Status c × AllClosedBut e none 0 h
Serves e Status R (running h) = (p : Option ℕ) × (q : ℕ) × (q ≤ 1) × AllClosedBut e p q h
Serves e Status R (fault h) = ⊥

module _ (e : Env) (Status : ℕ → Type 0) where
  then_Serves :
      (R R' : List Call → Type 0) (m next : M (Unit {0})) (h : List Call)
      → Serves e Status R (m e h)
      → ((h' : List Call) → R h' → Serves e Status R' (next e h'))
      → Serves e Status R' ((m >>= λ _. next) e h)
  then_Serves R R' m next h first rest = go (m e h) first
    where
      go :
          (o : Out (Unit {0}))
          → Serves e Status R o
          → Serves e Status R' (elim o [
            | ret a h' ↦ next e h'
            | exit c h' ↦ exit c h'
            | running h' ↦ running h'
            | fault h' ↦ fault h'
          ])
      go (ret a h') b = rest h' b
      go (exit c h') b = b
      go (running h') b = b
      go (fault h') b = b

  send_lines-Serves :
      (n clfd : ℕ) (h : List Call)
      → AllClosedBut e (some clfd) 1 h
      → Serves e Status (AllClosedBut e (some clfd) 1) (send_lines n clfd e h)
  unfolding send_lines closes taken started waited
  send_lines-Serves zero clfd h b = (some clfd, 1, omega arith, b)
  send_lines-Serves (suc n) clfd h b = elim (Option-cases (e (fgets 128 ∷ h)).ret) [
    | inl x ↦ rw x b
    | inr (k, x) ↦ rw x (send_lines-Serves n clfd _ b)
  ]

  set_cloexec-Serves :
      (R : List Call → Type 0) (p : Option ℕ) (q fd : ℕ) (next : M (Unit {0})) (h : List Call)
      → AllClosedBut e p q h
      → ((h' : List Call) → AllClosedBut e p q h' → Serves e Status R (next e h'))
      → Serves e Status R ((set_cloexec fd >>= λ _. next) e h)
  unfolding set_cloexec closes taken started waited
  set_cloexec-Serves R p q fd next h b rest = elim (Option-cases (e (getfd fd ∷ h)).ret) [
    | inl x ↦ rw x (rest (getfd fd ∷ h) b)
    | inr (v, x) ↦ rw x (rest _ b)
  ]

  run_command-Serves :
      (n clfd : ℕ) (reason : List ℕ) (h : List Call)
      → length (error_text reason) < 128
      → AllClosedBut e (some clfd) 0 h
      → Serves e Status (AllClosedBut e none 0) (run_command n reason clfd e h)
  unfolding run_command end_client closes taken started waited
  run_command-Serves n clfd reason h short b =
      let fits = lt→ltb (length (error_text reason)) 128 short in
      elim (Option-cases (e (popen ∷ h)).ret) [
        | inl x ↦ rw (x, fits) ((λ f. omega (arith, b.0 f)), omega (arith, b.1, ap one_if x))
        | inr (k, x) ↦ rw x (
            then_Serves (AllClosedBut e (some clfd) 1) (AllClosedBut e none 0) (send_lines n clfd)
              (end_client clfd) (popen ∷ h)
              (send_lines-Serves n clfd (popen ∷ h) (b.0, omega (arith, b.1, ap one_if x)))
              (λ h' b'. ((λ f. omega (arith, b'.0 f)), omega (arith, b'.1))))
      ]

  serve_client-Serves :
      (n clfd : ℕ) (reason : List ℕ) (h : List Call)
      → length (error_text reason) < 128
      → AllClosedBut e (some clfd) 0 h
      → Serves e Status (AllClosedBut e none 0) (serve_client n reason clfd e h)
  unfolding serve_client
  serve_client-Serves n clfd reason h short b =
      set_cloexec-Serves (AllClosedBut e none 0) (some clfd) 0 clfd (run_command n reason clfd) h b
        (λ h' b'. run_command-Serves n clfd reason h' short b')

-- The loop of `serve`, for any number of clients and whatever the calls return, when the text of an error
-- fits into `buf` and nothing was open before: it never returns, and ends the process only with 1. Then
-- every connection that was accepted is closed once, and every command that was started is waited for;
-- while it runs, at most one of each is open.
pub serve_loop-Serves :
    (e : Env) (n sockfd : ℕ) (reason : List ℕ) (h : List Call)
    → length (error_text reason) < 128
    → AllClosedBut e none 0 h
    → Serves e (λ c. c ≡ 1) (λ _. ⊥) (serve_loop n reason sockfd e h)
unfolding serve_loop closes taken started waited
serve_loop-Serves e zero sockfd reason h short b = (none, 0, omega arith, b)
serve_loop-Serves e (suc n) sockfd reason h short b =
    elim (Option-cases (e (accept sockfd ∷ h)).ret) [
      | inl x ↦ rw x (refl, ((λ f. omega (arith, b.0 f, ap (is_hit f) x)), b.1))
      | inr (clfd, x) ↦ rw x (
          then_Serves e (λ c. c ≡ 1) (AllClosedBut e none 0) (λ _. ⊥) (serve_client n reason clfd)
            (serve_loop n reason sockfd) (accept sockfd ∷ h)
            (serve_client-Serves e (λ c. c ≡ 1) n clfd reason (accept sockfd ∷ h) short
              ((λ f. omega (arith, b.0 f, ap (is_hit f) x)), b.1))
            (λ h' b'. serve_loop-Serves e n sockfd reason h' short b'))
    ]
