-- ===== src/MessageQueue/Last.antt =====
-- What the sender of ALSP/posix_msq.c and ALSP/posix_msg_sigev.c puts into the queue.
use mathlib.Core.List.{map}
use temp.Base.{
  ℕ, zero, suc, ◌≡◌, ◌≢◌, ◌≤◌, ◌⊎◌, inl, inr, refl, List, [], ◌∷◌, take, length, fgets_line,
  length-fgets_line, arith, Option-cases,
}
use temp.Base.Sys.{Call, Env, Out, ret, running, fgets, feof, mq_send}
use temp.MessageQueue.Posix.{send_loop, send_length}
use temp.MessageQueue.Lines.{lines, texts, drop_last, take-drop_last, AllBut, all_and_line}

-- A line that `fgets` reads has a character before its NUL.
abbrev pub LinesAreFull : Env → Type 0
LinesAreFull e = (h : List Call) → fgets_line 511 (e (fgets 512 ∷ h)).bytes ≢ []

send-drop_last :
    (line : List ℕ) → line ≢ [] → length line ≤ 511 → take (send_length line) line ≡ drop_last line
send-drop_last [] full short = absurd (full refl)
send-drop_last (x ∷ xs) full short = take-drop_last (send_length (x ∷ xs)) (x ∷ xs) (omega arith)

-- Every line is in the queue without its last character; when the loop has ended, the last line may be
-- missing.
abbrev pub Queued : Env → Out (Unit {0}) → Type 0
Queued e (ret a h) =
    (texts e h ≡ map drop_last (lines e h)) ⊎ AllBut drop_last (lines e h) (texts e h)
Queued e (running h) = texts e h ≡ map drop_last (lines e h)
Queued e _ = ⊥

-- The loop of `start_msq_sender`, in any number of passes, when no line begins with a NUL, and whatever the
-- other calls return: the queue takes each line once and in order, without its last character; only the line
-- at which the loop ends may be missing. So a last line without a newline loses a character of its text.
pub send_loop-Queued :
    (e : Env) (n mq_fd : ℕ) (h : List Call)
    → LinesAreFull e
    → texts e h ≡ map drop_last (lines e h)
    → Queued e (send_loop n mq_fd e h)
unfolding send_loop lines texts
send_loop-Queued e zero mq_fd h full b = b
send_loop-Queued e (suc n) mq_fd h full b = elim (Option-cases (e (feof ∷ h)).ret) [
  | inl x ↦ rw x (inl b)
  | inr (suc k, x) ↦ rw x (inl b)
  | inr (zero, x) ↦
      let h₁ = fgets 512 ∷ feof ∷ h in
      let line = fgets_line 511 (e h₁).bytes in
      let h₂ = mq_send mq_fd line (send_length line) ∷ h₁ in
      let text = send-drop_last line (full (feof ∷ h)) (length-fgets_line 511 (e h₁).bytes) in
      elim (Option-cases (e h₁).ret) [
        | inl y ↦ rw (x, y) (inl (rw y b))
        | inr (k, y) ↦ elim (Option-cases (e h₂).ret) [
          | inl z ↦ rw (x, y, z) (inr (lines e h, line, rw y refl, rw z b))
          | inr (m, z) ↦
              rw (x, y, z)
                (send_loop-Queued e n mq_fd h₂ full
                  (rw (y, z) (all_and_line drop_last (lines e h) (texts e h) line _ b text)))
        ]
      ]
]
