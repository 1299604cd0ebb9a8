-- ===== src/OobServer/Marks.antt =====
-- The buffer of ALSP/inet_tcp_serv1_OOB.c, as it fills.
use temp.Base.{
  ℕ, zero, suc, ◌+◌, ◌-◌, ◌^◌, ◌%◌, ◌≡◌, ◌≢◌, ◌≤◌, refl, ap, true, none, some, List, ◌∷◌, arith,
  Option-cases, inl, inr, ltb, lt→ltb,
}
use temp.Base.Sys.{Call, Env, Out, ret, fault, recv, sockatmark, close}
use temp.OobServer.{wait_recv, mark_pass, mark_loop}

-- The client has sent no urgent byte, `recv` never fails, and gives at most what it is asked for.
abbrev pub OrdinaryOnly : Env → ℕ → Type 0
OrdinaryOnly e cfd =
    ((h : List Call) → (e (sockatmark cfd ∷ h)).ret ≡ some 0)
    × ((m : ℕ) (h : List Call) → (e (recv cfd m ∷ h)).ret ≢ none)
    × ((m k : ℕ) (h : List Call) → (e (recv cfd m ∷ h)).ret ≡ some k → k ≤ m)

-- The connection has been closed.
abbrev pub HasClosed : ℕ → Out (Unit {0}) → Type 0
HasClosed cfd (ret a h) = (t : List Call) × (h ≡ close cfd ∷ t)
HasClosed cfd _ = ⊥

-- One pass that receives something.
mark_pass_adds :
    (e : Env) (cfd cum k : ℕ) (h : List Call)
    → OrdinaryOnly e cfd
    → cum ≤ 255
    → (e (recv cfd (255 - cum) ∷ sockatmark cfd ∷ h)).ret ≡ some (suc k)
    → mark_pass cfd cum e h ≡ ret (some (cum + suc k)) (recv cfd (255 - cum) ∷ sockatmark cfd ∷ h)
unfolding mark_pass wait_recv
mark_pass_adds e cfd cum k h ord low x =
    let inside : ltb (cum + 0) 256 ≡ true = lt→ltb (cum + 0) 256 (omega arith) in
    let h₂ = recv cfd (255 - cum) ∷ sockatmark cfd ∷ h in
    let room = ord.2 (255 - cum) (suc k) (sockatmark cfd ∷ h) x in
    let sum : (cum + suc k) % 2 ^ 32 ≡ cum + suc k = omega arith in
    rw (ord.0 h, inside, x) (ap (λ c. ret (some c) h₂) sum)

-- A connection without urgent bytes on which no `recv` fails: the loop stays within its buffer and always
-- comes to its end, with the connection closed, in one pass more than places are left in the buffer. So a
-- client is cut off once 255 ordinary bytes have come, whether it has more to send or not.
pub ordinary_bytes_cut_off :
    (e : Env) (n cfd cum : ℕ) (h : List Call)
    → OrdinaryOnly e cfd
    → cum ≤ 255
    → 255 ≤ cum + n
    → HasClosed cfd (mark_loop (suc n) cfd cum e h)
unfolding mark_loop mark_pass wait_recv
ordinary_bytes_cut_off e zero cfd cum h ord low enough =
    let inside : ltb (cum + 0) 256 ≡ true = lt→ltb (cum + 0) 256 (omega arith) in
    let h₁ = sockatmark cfd ∷ h in
    elim (Option-cases (e (recv cfd (255 - cum) ∷ h₁)).ret) [
      | inl x ↦ absurd (ord.1 (255 - cum) h₁ x)
      | inr (zero, x) ↦ rw (ord.0 h, inside, x) (recv cfd (255 - cum) ∷ h₁, refl)
      | inr (suc k, x) ↦ absurd (omega (arith, ord.2 (255 - cum) (suc k) h₁ x))
    ]
ordinary_bytes_cut_off e (suc n) cfd cum h ord low enough =
    let inside : ltb (cum + 0) 256 ≡ true = lt→ltb (cum + 0) 256 (omega arith) in
    let h₁ = sockatmark cfd ∷ h in
    elim (Option-cases (e (recv cfd (255 - cum) ∷ h₁)).ret) [
      | inl x ↦ absurd (ord.1 (255 - cum) h₁ x)
      | inr (zero, x) ↦ rw (ord.0 h, inside, x) (recv cfd (255 - cum) ∷ h₁, refl)
      | inr (suc k, x) ↦
          let room = ord.2 (255 - cum) (suc k) h₁ x in
          let rest =
            ordinary_bytes_cut_off e n cfd (cum + suc k) (recv cfd (255 - cum) ∷ h₁) ord
              (omega arith) (omega arith) in
          again (mark_pass_adds e cfd cum k h ord low x) rest
    ]
  where
    again :
        {h' : List Call} {cum' : ℕ}
        → mark_pass cfd cum e h ≡ ret (some cum') h'
        → HasClosed cfd (mark_loop (suc n) cfd cum' e h')
        → HasClosed cfd (mark_loop (suc (suc n)) cfd cum e h)
    again q r = rw q r

-- Two failures of `recv` in a row, at the start of a connection without urgent bytes: the first counts -1
-- bytes, and the second would store before the buffer. So the process comes to a fault, whatever the
-- number of passes.
failed_recv_faults :
    (e : Env) (n cfd : ℕ) (h : List Call)
    → ((t : List Call) → (e (sockatmark cfd ∷ t)).ret ≡ some 0)
    → (e (recv cfd 255 ∷ sockatmark cfd ∷ h)).ret ≡ none
    → mark_loop (suc (suc n)) cfd 0 e h ≡ fault (sockatmark cfd ∷ recv cfd 255 ∷ sockatmark cfd ∷ h)
unfolding mark_loop mark_pass wait_recv
failed_recv_faults e n cfd h ordinary x =
    rw (ordinary h, x) (rw (ordinary (recv cfd 255 ∷ sockatmark cfd ∷ h)) refl)
