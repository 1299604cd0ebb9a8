-- ===== src/Filters/Pager.antt =====
-- What the pager of APUE/pager.c gets to read.
use temp.Base.{
  ℕ, zero, suc, ◌≡◌, inl, inr, refl, sym, ◌∙◌, ap, Option, none, some, List, [], ◌∷◌, ◌++◌, length,
  fgets_line, Option-cases, Bool-cases, ◌-◌, arith,
}
use temp.Base.Sys.{Call, Env, Out, ret, exit, running, fgets, write}
use temp.Base.Traffic.{accepted, written, written_write, take_all}
use temp.Filters.{is_count, pager_loop}
use temp.Filters.Copies.{count_holds}

-- A text and what a call added to it, if it did.
abbrev pub and_text : Option ℕ → List ℕ → List ℕ → List ℕ
and_text none more text = text
and_text (some _) more text = text ++ more

-- The lines that were read, one behind the other.
unfoldable pub read_text : Env → List Call → List ℕ
read_text e [] = []
read_text e (fgets n ∷ h) =
    and_text (e (fgets n ∷ h)).ret (fgets_line (n - 1) (e (fgets n ∷ h)).bytes) (read_text e h)
read_text e (_ ∷ h) = read_text e h

-- The pipe has the text, unless a `write` fell short, after which the process ends with 1.
abbrev pub Paged : Env → ℕ → Out (Unit {0}) → Type 0
Paged e fd (ret a h) = written e fd h ≡ read_text e h
Paged e fd (running h) = written e fd h ≡ read_text e h
Paged e fd (exit c h) = c ≡ 1
Paged e fd _ = ⊥

-- The loop of pager.c, in any number of passes and whatever the calls return: what the pipe has taken is
-- the text of the file, in order and whole, when the loop has come to the end of the file and while it runs,
-- if it was so at the start; else the process has ended with 1.
pub pager_loop-Paged :
    (e : Env) (n fd : ℕ) (h : List Call)
    → written e fd h ≡ read_text e h
    → Paged e fd (pager_loop n fd e h)
unfolding pager_loop read_text written
pager_loop-Paged e zero fd h b = b
pager_loop-Paged e (suc n) fd h b = elim (Option-cases (e (fgets 4096 ∷ h)).ret) [
  | inl x ↦ rw x (
      sym (
        ap (λ o. and_text o (fgets_line 4095 (e (fgets 4096 ∷ h)).bytes) (read_text e h)) x
        ∙ sym b))
  | inr (k, x) ↦
      let h₁ = fgets 4096 ∷ h in
      let line = fgets_line 4095 (e h₁).bytes in
      let h₂ = write fd line ∷ h₁ in
      elim (Bool-cases (is_count (e h₂).ret (length line))) [
        | inr short ↦ rw (x, short) refl
        | inl whole ↦
            let took : accepted (e h₂).ret line ≡ line =
              ap (λ o. accepted o line) (count_holds (e h₂).ret (length line) whole)
              ∙ take_all (length line) line (omega arith) in
            let more : written e fd h₂ ≡ read_text e h ++ line =
              written_write e fd line h₁
              ∙ ap (λ r. written e fd h₁ ++ r) took
              ∙ ap (λ r. r ++ line) b in
            rw (x, whole)
              (pager_loop-Paged e n fd h₂
                (more ∙ sym (ap (λ o. and_text o line (read_text e h)) x)))
      ]
]
