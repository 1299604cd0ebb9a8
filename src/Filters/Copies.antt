-- ===== src/Filters/Copies.antt =====
-- What APUE/mycp.c and APUE/write.c write.
use temp.Base.{
  ℕ, zero, suc, ◌≡◌, ◌≢◌, ◌⊎◌, inl, inr, refl, sym, ◌∙◌, ap, Bool, true, false, Option, none, some,
  List, [], ◌∷◌, ◌++◌, append-nil, append_assoc, take, drop, take-append-drop, Option-cases,
  Bool-cases, arith,
}
use temp.Base.Sys.{Call, Env, Out, ret, exit, running, read, write}
use temp.Base.Traffic.{accepted, written, got, written_write, written_read, got_read, got_write}
use temp.Filters.{is_count, mycp_main, write_loop}

-- The input is over: the last `read` gave 0 bytes.
abbrev pub AtEnd : Env → List Call → Type 0
AtEnd e h = (t : List Call) × (h ≡ read 0 4096 ∷ t) × ((e h).ret ≡ some 0)

-- The last call failed: a `read`, or a `write` that did not take all that the `read` before it gave.
abbrev pub Broke : Env → List Call → Type 0
Broke e h =
    ((t : List Call) × (h ≡ read 0 4096 ∷ t) × ((e h).ret ≡ none))
    ⊎ ((t : List Call) × (k : ℕ) × (h
          ≡ write 1 (take k (e (read 0 4096 ∷ t)).bytes) ∷ read 0 4096 ∷ t)
        × ((e (read 0 4096 ∷ t)).ret ≡ some k)
        × ((e h).ret ≢ some k))

-- Of mycp.c: as long as it runs the output is the input, also when it ends with 0; and when it ends with 1,
-- the output is the input up to some point.
abbrev pub Copied : Env → Out (Unit {0}) → Type 0
Copied e (exit c h) =
    ((c ≡ 0) × AtEnd e h × (written e 1 h ≡ got e 0 h))
    ⊎ ((c ≡ 1) × Broke e h × ((lost : List ℕ) × (written e 1 h ++ lost ≡ got e 0 h)))
Copied e (running h) = written e 1 h ≡ got e 0 h
Copied e _ = ⊥

-- What a call that took a part of a text left of it.
rest_of : Option ℕ → List ℕ → List ℕ
rest_of none text = text
rest_of (some k) text = drop k text

accepted-rest_of : (o : Option ℕ) (text : List ℕ) → accepted o text ++ rest_of o text ≡ text
unfolding rest_of
accepted-rest_of none text = refl
accepted-rest_of (some k) text = take-append-drop k text

module _ (e : Env) (h : List Call) (b : written e 1 h ≡ got e 0 h) where
  -- After a `read` that gave nothing.
  read_nothing :
      {o : Option ℕ}
      → (e (read 0 4096 ∷ h)).ret ≡ o
      → ((t : List ℕ) → accepted o t ≡ [])
      → written e 1 (read 0 4096 ∷ h) ≡ got e 0 (read 0 4096 ∷ h)
  read_nothing x none_of =
      written_read e 1 0 4096 h
      ∙ b
      ∙ sym (append-nil (got e 0 h))
      ∙ ap (λ r. got e 0 h ++ r) (sym (none_of (e (read 0 4096 ∷ h)).bytes))
      ∙ ap (λ o. got e 0 h ++ accepted o (e (read 0 4096 ∷ h)).bytes) (sym x)
      ∙ sym (got_read e 0 4096 h)

  -- After a `read` of some text and a `write` of it.
  pass_on :
      (k : ℕ) {o : Option ℕ} (t : List ℕ)
      → t ≡ take k (e (read 0 4096 ∷ h)).bytes
      → (e (read 0 4096 ∷ h)).ret ≡ some k
      → (e (write 1 t ∷ read 0 4096 ∷ h)).ret ≡ o
      → written e 1 (write 1 t ∷ read 0 4096 ∷ h) ++ rest_of o t
        ≡ got e 0 (write 1 t ∷ read 0 4096 ∷ h)
  pass_on k {o} t text x w =
      let h₁ = read 0 4096 ∷ h in
      ap (λ r. r ++ rest_of o t)
        (written_write e 1 t h₁
          ∙ ap (λ r. r ++ accepted (e (write 1 t ∷ h₁)).ret t) (written_read e 1 0 4096 h ∙ b))
      ∙ ap (λ p. (got e 0 h ++ accepted p t) ++ rest_of o t) w
      ∙ append_assoc (got e 0 h) (accepted o t) (rest_of o t)
      ∙ ap (λ r. got e 0 h ++ r) (accepted-rest_of o t ∙ text)
      ∙ ap (λ p. got e 0 h ++ accepted p (e h₁).bytes) (sym x)
      ∙ sym (got_read e 0 4096 h)
      ∙ sym (got_write e 0 1 t h₁)

differ : {a : Bool} → a ≡ false → a ≡ true → ⊥
differ p q = cc

drop-take : (k : ℕ) (xs : List ℕ) → drop k (take k xs) ≡ []
drop-take zero xs = refl
drop-take (suc k) [] = refl
drop-take (suc k) (x ∷ xs) = drop-take k xs

count_refl : (o : Option ℕ) (n : ℕ) → o ≡ some n → is_count o n ≡ true
count_refl o n h = ap (λ p. is_count p n) h ∙ same n
  where
    same : (m : ℕ) → is_count (some m) m ≡ true
    same m = ground arith

pub count_holds : (o : Option ℕ) (n : ℕ) → is_count o n ≡ true → o ≡ some n
count_holds none n h = absurd (cc)
count_holds (some k) n h = ground arith

-- `main` of mycp.c, in any number of passes, when nothing was copied before or as much was written as was
-- read: what stands in the output is what was read from the input, in order, while it runs and when it ends
-- with 0, which it does only at the end of the input. It ends with 1 just after a `read` that failed or a
-- `write` that failed or took less than was read, and the output is then the input up to some point.
pub mycp_main-Copied :
    (e : Env) (n : ℕ) (h : List Call) → written e 1 h ≡ got e 0 h → Copied e (mycp_main n e h)
unfolding mycp_main rest_of
mycp_main-Copied e zero h b = b
mycp_main-Copied e (suc n) h b = elim (Option-cases (e (read 0 4096 ∷ h)).ret) [
  | inl x ↦
      rw x (inr (refl, inl (h, refl, x), ([], append-nil _ ∙ read_nothing e h b x (λ t. refl))))
  | inr (zero, x) ↦ rw x (inl (refl, (h, refl, x), read_nothing e h b x (λ t. refl)))
  | inr (suc k, x) ↦
      let h₁ = read 0 4096 ∷ h in
      let t = take (suc k) (e h₁).bytes in
      let h₂ = write 1 t ∷ h₁ in
      elim (Bool-cases (is_count (e h₂).ret (suc k))) [
        | inr short ↦
            rw (x, short)
              (inr (
                refl,
                inr (
                  h,
                  suc k,
                  refl,
                  x,
                  λ w. absurd (differ short (count_refl (e h₂).ret (suc k) w)),
                ),
                (rest_of (e h₂).ret t, pass_on e h b (suc k) t refl x refl),
              ))
        | inl whole ↦
            let now = pass_on e h b (suc k) t refl x (count_holds (e h₂).ret (suc k) whole) in
            rw (x, whole)
              (mycp_main-Copied e n h₂ (
                sym (append-nil _)
                ∙ ap (λ r. written e 1 h₂ ++ r) (sym (drop-take (suc k) (e h₁).bytes))
                ∙ now))
      ]
]

-- Of write.c: while it runs, a part of the text is left.
abbrev pub Written : Env → List ℕ → Out (Unit {0}) → Type 0
Written e text (ret a h) = written e 1 h ≡ text
Written e text (running h) = (left : List ℕ) × (written e 1 h ++ left ≡ text)
Written e text _ = ⊥

-- The loop of write.c, in any number of passes and whatever `write` returns: the output takes the text
-- in order and without a repetition, also when `write` takes parts of it or fails and is tried again,
-- and when the loop ends the output has the whole text.
write_loop-Written :
    (e : Env) (n : ℕ) (ptr text : List ℕ) (h : List Call)
    → written e 1 h ++ ptr ≡ text
    → Written e text (write_loop n ptr e h)
unfolding write_loop rest_of
write_loop-Written e n [] text h b = sym (append-nil _) ∙ b
write_loop-Written e zero (c ∷ ptr) text h b = (c ∷ ptr, b)
write_loop-Written e (suc n) (c ∷ ptr) text h b = elim (Option-cases (e h₁).ret) [
  | inl x ↦ rw x (write_loop-Written e n (c ∷ ptr) text h₁ (step none x))
  | inr (zero, x) ↦ rw x (write_loop-Written e n (c ∷ ptr) text h₁ (step (some 0) x))
  | inr (suc k, x) ↦
      rw x (write_loop-Written e n (drop (suc k) (c ∷ ptr)) text h₁ (step (some (suc k)) x))
]
  where
    h₁ : List Call
    h₁ = write 1 (c ∷ ptr) ∷ h

    step : (o : Option ℕ) → (e h₁).ret ≡ o → written e 1 h₁ ++ rest_of o (c ∷ ptr) ≡ text
    step o x =
        ap (λ r. r ++ rest_of o (c ∷ ptr))
          (written_write e 1 (c ∷ ptr) h ∙ ap (λ p. written e 1 h ++ accepted p (c ∷ ptr)) x)
        ∙ append_assoc (written e 1 h) (accepted o (c ∷ ptr)) (rest_of o (c ∷ ptr))
        ∙ ap (λ r. written e 1 h ++ r) (accepted-rest_of o (c ∷ ptr))
        ∙ b
