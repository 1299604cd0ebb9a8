-- ===== src/TcpClient/Commands.antt =====
-- What the commands of ALSP/tcp_cli.c send.
use temp.Base.{
  ℕ, zero, suc, ◌≡◌, ◌⊎◌, inl, inr, refl, sym, ◌∙◌, ap, Bool, true, false, Option, none, some, List,
  [], ◌∷◌, ◌++◌, until_nul, Option-cases, Bool-cases,
}
use temp.Base.Sys.{Call, Env, Out, ret, exit, running, fault, getline, send, send_oob}
use temp.TcpClient.{atoi, command_loop, str_ordinary, str_oob}

-- A text on its way to the server: whether it is urgent, the socket and the text, the latest first.
unfoldable pub sent : List Call → List (Bool × ℕ × List ℕ)
sent [] = []
sent (send f t ∷ h) = (false, f, t) ∷ sent h
sent (send_oob f t ∷ h) = (true, f, t) ∷ sent h
sent (_ ∷ h) = sent h

-- What the user asks for: "1.abcde" at the number 1, "2.fghij" out of band at the number 2, else nothing.
abbrev pub answer : ℕ → ℕ → List (Bool × ℕ × List ℕ)
answer fd (suc zero) = (false, fd, 49 ∷ 46 ∷ 97 ∷ 98 ∷ 99 ∷ 100 ∷ 101 ∷ []) ∷ []
answer fd (suc (suc zero)) = (true, fd, 50 ∷ 46 ∷ 102 ∷ 103 ∷ 104 ∷ 105 ∷ 106 ∷ []) ∷ []
answer fd _ = []

abbrev pub answer_to : ℕ → Option ℕ → List ℕ → List (Bool × ℕ × List ℕ)
answer_to fd none bytes = []
answer_to fd (some _) bytes = answer fd (atoi (until_nul bytes))

unfoldable pub answers : Env → ℕ → List Call → List (Bool × ℕ × List ℕ)
answers e fd [] = []
answers e fd (getline ∷ h) =
    answer_to fd (e (getline ∷ h)).ret (e (getline ∷ h)).bytes ++ answers e fd h
answers e fd (_ ∷ h) = answers e fd h

-- What went out is what the user asked for, in this order.
abbrev pub Answered : Env → ℕ → List Call → Type 0
Answered e fd h = sent h ≡ answers e fd h

-- The last line of the user, and its number.
abbrev pub LastIs : Env → ℕ → List Call → Type 0
LastIs e v h =
    (t : List Call) × (k : ℕ) × (h ≡ getline ∷ t)
    × ((e h).ret ≡ some k)
    × (atoi (until_nul (e h).bytes) ≡ v)

-- The fault is at a number other than 0, 1 and 2, before any 1 or 2.
abbrev pub Obeys : Env → ℕ → Out ℕ → Type 0
Obeys e fd (ret c h) =
    (c ≡ 1) × ((t : List Call) × (h ≡ getline ∷ t) × ((e h).ret ≡ none)) × Answered e fd h
Obeys e fd (exit c h) = (c ≡ 0) × LastIs e 0 h × Answered e fd h
Obeys e fd (running h) = Answered e fd h
Obeys e fd (fault h) = (answers e fd h ≡ []) × ((k : ℕ) × LastIs e (suc (suc (suc k))) h)

number_cases : (v : ℕ) → (v ≡ 0) ⊎ ((v ≡ 1) ⊎ ((v ≡ 2) ⊎ ((k : ℕ) × (v ≡ suc (suc (suc k))))))
number_cases zero = inl refl
number_cases (suc zero) = inr (inl refl)
number_cases (suc (suc zero)) = inr (inr (inl refl))
number_cases (suc (suc (suc k))) = inr (inr (inr (k, refl)))

-- What one more command asks for.
one_more :
    (e : Env) (fd v k : ℕ) (h : List Call)
    → (e (getline ∷ h)).ret ≡ some k
    → atoi (until_nul (e (getline ∷ h)).bytes) ≡ v
    → answers e fd (getline ∷ h) ≡ answer fd v ++ answers e fd h
unfolding answers
one_more e fd v k h x y =
    ap (λ o. answer_to fd o (e (getline ∷ h)).bytes ++ answers e fd h) x
    ∙ ap (λ w. answer fd w ++ answers e fd h) y

no_more :
    (e : Env) (fd : ℕ) (h : List Call)
    → (e (getline ∷ h)).ret ≡ none
    → answers e fd (getline ∷ h) ≡ answers e fd h
unfolding answers
no_more e fd h x = ap (λ o. answer_to fd o (e (getline ∷ h)).bytes ++ answers e fd h) x

-- The loop of tcp_cli.c, in any number of passes and whatever the calls return: it sends "1.abcde" to its
-- socket once for each command 1 and "2.fghij" out of band once for each command 2, in the order of the
-- commands, and sends nothing else; it returns EXIT_FAILURE only at the end of the input, and ends with
-- EXIT_SUCCESS only at the command 0; and it uses `p_sbuf` without a value only at a number other than 0, 1
-- and 2 that comes before any 1 or 2.
pub command_loop-Obeys :
    (e : Env) (n fd : ℕ) (set : Bool) (h : List Call)
    → Answered e fd h
    → (set ≡ false → answers e fd h ≡ [])
    → Obeys e fd (command_loop n fd set e h)
unfolding command_loop sent answers
command_loop-Obeys e zero fd set h b s = b
command_loop-Obeys e (suc n) fd set h b s =
    let h₁ = getline ∷ h in
    elim (Option-cases (e h₁).ret) [
      | inl x ↦ rw x (refl, (h, refl, x), b ∙ sym (no_more e fd h x))
      | inr (k, x) ↦ elim (number_cases (atoi (until_nul (e h₁).bytes))) [
        | inl y ↦ rw (x, y) (refl, (h, k, refl, x, y), b ∙ sym (one_more e fd 0 k h x y))
        | inr (inl y) ↦
            rw (x, y)
              (command_loop-Obeys e n fd true (send fd str_ordinary ∷ h₁)
                (ap (λ r. (false, fd, str_ordinary) ∷ r) b ∙ sym (one_more e fd 1 k h x y))
                (λ q. absurd (cc)))
        | inr (inr (inl y)) ↦
            rw (x, y)
              (command_loop-Obeys e n fd true (send_oob fd str_oob ∷ h₁)
                (ap (λ r. (true, fd, str_oob) ∷ r) b ∙ sym (one_more e fd 2 k h x y))
                (λ q. absurd (cc)))
        | inr (inr (inr (m, y))) ↦
            let same = one_more e fd (suc (suc (suc m))) k h x y in
            elim (Bool-cases set) [
              | inl t ↦
                  rw (x, y, t) (command_loop-Obeys e n fd true h₁ (b ∙ sym same) (λ q. absurd (cc)))
              | inr f ↦ rw (x, y, f) (same ∙ s f, (m, (h, k, refl, x, y)))
            ]
      ]
    ]
