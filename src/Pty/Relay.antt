-- ===== src/Pty/Relay.antt =====
-- The copying loops of APUE/loop.c: what goes out is what came in.
use temp.Base.{
  ℕ, zero, suc, ◌-◌, ◌≡◌, ◌∙◌, refl, sym, ap, Bool, true, false, Option, none, some, List, [], ◌∷◌,
  ◌++◌, append-nil, append_assoc, arith, Bool-cases, Option-cases, inl, inr, length, take, drop,
  length-take, take-append-drop, ◌==◌, if◌then◌else◌,
}
use temp.Base.Traffic.{accepted, written, got, got_read, written_read, take_all}
use temp.Base.Sys.{Call, Env, M, Out, ret, exit, running, fault, pure, halt, read, bind-ret, ◌>>=◌}
use temp.Rwn.{writen}
use temp.Rwn.Loops.{ReadBounded, WriteBounded, Wrote, writen_lem}
use temp.Pty.Loop.{relay, wrote}

-- All that came in since `h` has gone out, or all but its end `y`.
abbrev pub Copied : Env → ℕ → ℕ → List Call → List ℕ → List Call → Type 0
Copied e from to h y h' =
    (x : List ℕ) × (got e from h' ≡ got e from h ++ (x ++ y))
    × (written e to h' ≡ written e to h ++ x)

-- Of every outcome: nothing is lost, unless the process has ended with 1.
abbrev pub Relays : Env → ℕ → ℕ → List Call → Out (Unit {0}) → Type 0
Relays e from to h (ret a h') = Copied e from to h [] h'
Relays e from to h (running h') = Copied e from to h [] h'
Relays e from to h (exit c h') = (c ≡ 1) × ((y : List ℕ) × Copied e from to h y h')
Relays e from to h (fault h') = ⊥

module _ (e : Env) (from to : ℕ) where
  Copied-refl : (h : List Call) → Copied e from to h [] h
  Copied-refl h = ([], sym (append-nil (got e from h)), sym (append-nil (written e to h)))

  Copied-trans :
      (h h₂ h' : List Call) (t y : List ℕ)
      → got e from h₂ ≡ got e from h ++ t
      → written e to h₂ ≡ written e to h ++ t
      → Copied e from to h₂ y h'
      → Copied e from to h y h'
  Copied-trans h h₂ h' t y came went (x, came', went') = (
    t ++ x,
    came'
        ∙ ap (λ s. s ++ (x ++ y)) came
        ∙ append_assoc (got e from h) t (x ++ y)
        ∙ ap (λ s. got e from h ++ s) (sym (append_assoc t x y)),
    went' ∙ ap (λ s. s ++ x) went ∙ append_assoc (written e to h) t x,
  )

  Relays-trans :
      (h h₂ : List Call) (t : List ℕ) (o : Out (Unit {0}))
      → got e from h₂ ≡ got e from h ++ t
      → written e to h₂ ≡ written e to h ++ t
      → Relays e from to h₂ o
      → Relays e from to h o
  Relays-trans h h₂ t (ret a h') came went r = Copied-trans h h₂ h' t [] came went r
  Relays-trans h h₂ t (running h') came went r = Copied-trans h h₂ h' t [] came went r
  Relays-trans h h₂ t (exit c h') came went (one, (y, r)) =
      (one, (y, Copied-trans h h₂ h' t y came went r))
  Relays-trans h h₂ t (fault h') came went r = r

  -- A read that gives nothing.
  read_nothing :
      (n : ℕ) (h : List Call) {o : Option ℕ}
      → (e (read from n ∷ h)).ret ≡ o
      → accepted o (e (read from n ∷ h)).bytes ≡ []
      → Copied e from to h [] (read from n ∷ h)
  read_nothing n h x a = (
    [],
    got_read e from n h
        ∙ ap (λ o. got e from h ++ accepted o (e (read from n ∷ h)).bytes) x
        ∙ ap (λ t. got e from h ++ t) a,
    written_read e to from n h ∙ sym (append-nil (written e to h)),
  )

  -- What follows a `writen` of the text `t`, which came in by the read before it.
  after_writen :
      (h h₁ h₂ : List Call) (t : List ℕ) (r : Option ℕ) (next : M (Unit {0}))
      → got e from h₁ ≡ got e from h ++ t
      → written e to h₁ ≡ written e to h
      → Wrote e to (length t) 0 t h₁ r h₂
      → Relays e from to h₂ (next e h₂)
      → Relays e from to h ((if wrote r (length t) then next else halt 1) e h₂)
  after_writen h h₁ h₂ t none next came before (z, asked, went, stalled, same) ok =
      (refl, (t, ([], same from ∙ came, went ∙ before ∙ sym (append-nil (written e to h)))))
  after_writen h h₁ h₂ t (some m) next came before (low, high, went, end, same) ok =
      elim (Bool-cases (m == length t)) [
        | inl y ↦
            let whole : take (m - 0) t ≡ t = take_all (m - 0) t (ground arith) in
            rw y (
              Relays-trans h h₂ t (next e h₂) (same from ∙ came)
                (went ∙ ap (λ s. written e to h₁ ++ s) whole ∙ ap (λ s. s ++ t) before) ok)
        | inr y ↦ rw y (
          refl,
          (
            drop (m - 0) t,
            (
              take (m - 0) t,
              same from ∙ came ∙ ap (λ s. got e from h ++ s) (sym (take-append-drop (m - 0) t)),
              went ∙ ap (λ s. s ++ take (m - 0) t) before,
            ),
          ),
        )
      ]

-- A copying loop, in any number of rounds and with any outcome: what has gone out since its start is
-- what came in since then, in order, also while the loop still runs; only when the process has ended with
-- 1, the end of what came in may be missing. It is the child's loop if a failed `read` is fatal, and else
-- the parent's. Neither `read` nor `write` transfers more than it is asked for.
pub relay_lem :
    (fatal : Bool) (n from to : ℕ) (e : Env) (h : List Call)
    → ReadBounded e from
    → WriteBounded e to
    → Relays e from to h (relay (if fatal then halt 1 else pure tt) n from to e h)
unfolding relay
relay_lem fatal zero from to e h rb wb = Copied-refl e from to h
relay_lem fatal (suc n) from to e h rb wb =
    let h₁ = read from 512 ∷ h in
    elim (Option-cases (e h₁).ret) [
      | inl x ↦ rw x (stop fatal (read_nothing e from to 512 h x refl))
      | inr (zero, x) ↦ rw x (read_nothing e from to 512 h x refl)
      | inr (suc k, x) ↦
          let t = take (suc k) (e h₁).bytes in
          let (asked, given) = rb 512 (suc k) h x in
          let size : length t ≡ suc k = omega (arith, length-take (suc k) (e h₁).bytes) in
          let (r, h₂, run, done) = writen_lem to t e h₁ wb in
          let rest = relay_lem fatal n from to e h₂ rb wb in
          let next = relay (if fatal then halt 1 else pure tt) n from to in
          let came : got e from h₁ ≡ got e from h ++ t =
            got_read e from 512 h ∙ ap (λ o. got e from h ++ accepted o (e h₁).bytes) x in
          let round : Relays e from to h
              ((writen to t (length t) >>= λ w. if wrote w (length t) then next else halt 1) e h₁) =
            rw
              (bind-ret (writen to t (length t)) (λ w. if wrote w (length t) then next else halt 1)
                e h₁ h₂ r run)
              (after_writen e from to h h₁ h₂ t r next came (written_read e to from 512 h) done
                rest) in
          rw x (rw size at round)
    ]
  where
    stop :
        (fatal : Bool)
        → Copied e from to h [] (read from 512 ∷ h)
        → Relays e from to h ((if fatal then halt 1 else pure tt) e (read from 512 ∷ h))
    stop true c = (refl, ([], c))
    stop false c = c
