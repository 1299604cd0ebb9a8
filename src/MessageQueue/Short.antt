-- ===== src/MessageQueue/Short.antt =====
-- What the sender of ALSP/sysv_msg.c puts into the queue, and where it goes wrong.
use mathlib.Core.List.{map}
use temp.Base.{
  ℕ, zero, suc, ◌-◌, ◌≡◌, ◌≤◌, ◌<◌, ◌⊎◌, inl, inr, refl, ap, List, [], ◌∷◌, ◌++◌, take, drop,
  get_or, length, ltb, fgets_line, arith, Option-cases, Bool-cases,
}
use temp.Base.Sys.{Call, Env, Out, ret, running, fault, fgets, feof, msgsnd}
use temp.MessageQueue.Typed.{typed_loop, digit_type}
use temp.MessageQueue.Lines.{lines, messages, drop_last, take-drop_last, AllBut, all_and_line}

-- The message of a line: its type is the digit in front, and its text what follows the character behind
-- that, without the last one.
abbrev pub typed_message : List ℕ → ℕ × List ℕ
typed_message line = (digit_type (get_or line 0 0), drop_last (drop 2 line))

abbrev pub AllLong : List (List ℕ) → Type 0
AllLong [] = Unit
AllLong (line ∷ ls) = (3 ≤ length line) × AllLong ls

AllLong-append :
    (ls : List (List ℕ)) (line : List ℕ)
    → AllLong ls
    → 3 ≤ length line
    → AllLong (ls ++ (line ∷ []))
AllLong-append [] line v h = (h, tt)
AllLong-append (l ∷ ls) line v h = (v.0, AllLong-append ls line v.1 h)

take-message :
    (line : List ℕ)
    → 3 ≤ length line
    → take (length line - 3) (drop 2 line) ≡ drop_last (drop 2 line)
take-message [] h = absurd (omega (arith, h))
take-message (x ∷ []) h = absurd (omega (arith, h))
take-message (x ∷ y ∷ rest) h = take-drop_last (length (x ∷ y ∷ rest) - 3) rest (omega (arith, h))

-- The messages of a run: of all its lines, or of all but the last one, which is shorter than three
-- characters if the run comes to a fault.
abbrev pub Typed : Env → Out (Unit {0}) → Type 0
Typed e (ret a h) =
    AllLong (lines e h)
    × ((messages e h ≡ map typed_message (lines e h))
        ⊎ AllBut typed_message (lines e h) (messages e h))
Typed e (running h) = AllLong (lines e h) × (messages e h ≡ map typed_message (lines e h))
Typed e (fault h) =
    (earlier : List (List ℕ)) × (last : List ℕ) × (lines e h ≡ earlier ++ (last ∷ []))
    × (length last < 3)
    × (messages e h ≡ map typed_message earlier)
Typed e _ = ⊥

-- The loop of `start_msq_sender` of sysv_msg.c, in any number of passes, whatever the calls return: the queue
-- takes the message of each line once and in order, and only the line at which the loop ends may be missing.
-- The loop copies out of bounds exactly when it reads a line of fewer than three characters, such as an
-- empty one, with the messages of all earlier lines in the queue.
pub typed_loop-Typed :
    (e : Env) (n msg_id : ℕ) (h : List Call)
    → AllLong (lines e h)
    → messages e h ≡ map typed_message (lines e h)
    → Typed e (typed_loop n msg_id e h)
unfolding typed_loop lines messages
typed_loop-Typed e zero msg_id h long b = (long, b)
typed_loop-Typed e (suc n) msg_id h long b = elim (Option-cases (e (feof ∷ h)).ret) [
  | inl x ↦ rw x (long, inl b)
  | inr (suc k, x) ↦ rw x (long, inl b)
  | inr (zero, x) ↦
      let h₁ = fgets 512 ∷ feof ∷ h in
      let line = fgets_line 511 (e h₁).bytes in
      let h₂ =
        msgsnd msg_id (digit_type (get_or line 0 0)) (take (length line - 3) (drop 2 line)) ∷ h₁ in
      elim (Option-cases (e h₁).ret) [
        | inl y ↦ rw (x, y) (rw y long, inl (rw y b))
        | inr (k, y) ↦ elim (Bool-cases (ltb (length line) 3)) [
          | inl short ↦ rw (x, y, short) (lines e h, line, rw y refl, ground arith, b)
          | inr enough ↦
              let three : 3 ≤ length line = ground arith in
              let longer = AllLong-append (lines e h) line long three in
              elim (Option-cases (e h₂).ret) [
                | inl z ↦
                    rw (x, y, enough, z) (rw y longer, inr (lines e h, line, rw y refl, rw z b))
                | inr (m, z) ↦
                    rw (x, y, enough, z)
                      (typed_loop-Typed e n msg_id h₂ (rw y longer) (
                        rw (y, z)
                          (all_and_line typed_message (lines e h) (messages e h) line _ b (
                            ap (λ t. (digit_type (get_or line 0 0), t))
                              (take-message line three)))))
              ]
        ]
      ]
]
