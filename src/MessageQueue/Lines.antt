-- ===== src/MessageQueue/Lines.antt =====
-- The lines that a sender of ALSP/posix_msq.c, ALSP/sysv_msg.c or ALSP/sysv_msg_regex.c has read, and the
-- messages that the queue has taken.
use mathlib.Core.List.{map, map-append}
use temp.Base.{
  ℕ, zero, suc, ◌-◌, ◌≡◌, refl, sym, ap, Option, none, some, List, [], ◌∷◌, ◌++◌, take, length,
  fgets_line, arith,
}
use temp.Base.Sys.{Call, Env, fgets, mq_send, msgsnd}

-- A line more, if a call gave one.
abbrev pub and_line {ℓ} : {A : Type ℓ} → Option ℕ → A → List A → List A
and_line none a xs = xs
and_line (some _) a xs = xs ++ (a ∷ [])

-- The lines read from the file, in order.
unfoldable pub lines : Env → List Call → List (List ℕ)
lines e [] = []
lines e (fgets n ∷ h) =
    and_line (e (fgets n ∷ h)).ret (fgets_line (n - 1) (e (fgets n ∷ h)).bytes) (lines e h)
lines e (_ ∷ h) = lines e h

-- The texts that the queue has taken, in order, and the messages with their types.
unfoldable pub texts : Env → List Call → List (List ℕ)
texts e [] = []
texts e (mq_send f s n ∷ h) = and_line (e (mq_send f s n ∷ h)).ret (take n s) (texts e h)
texts e (_ ∷ h) = texts e h

unfoldable pub messages : Env → List Call → List (ℕ × List ℕ)
messages e [] = []
messages e (msgsnd q t s ∷ h) = and_line (e (msgsnd q t s ∷ h)).ret (t, s) (messages e h)
messages e (_ ∷ h) = messages e h

-- A list without its last entry.
unfoldable pub drop_last : List ℕ → List ℕ
drop_last [] = []
drop_last (x ∷ []) = []
drop_last (x ∷ y ∷ ys) = x ∷ drop_last (y ∷ ys)

pub take-drop_last : (k : ℕ) (xs : List ℕ) → suc k ≡ length xs → take k xs ≡ drop_last xs
unfolding drop_last
take-drop_last k [] h = absurd (omega (arith, h))
take-drop_last zero (x ∷ []) h = refl
take-drop_last zero (x ∷ y ∷ ys) h = absurd (omega (arith, h))
take-drop_last (suc k) (x ∷ []) h = absurd (omega (arith, h))
take-drop_last (suc k) (x ∷ y ∷ ys) h =
    ap (λ r. x ∷ r) (take-drop_last k (y ∷ ys) (omega (arith, h)))

-- The lines `read` have all gone out as `f` makes a message of a line, or all but the last one.
abbrev pub AllBut {ℓ} : {B : Type ℓ} → (List ℕ → B) → List (List ℕ) → List B → Type ℓ
AllBut f read gone =
    (earlier : List (List ℕ)) × (last : List ℕ) × (read ≡ earlier ++ (last ∷ []))
    × (gone ≡ map f earlier)

pub all_and_line {ℓ} :
    {B : Type ℓ} (f : List ℕ → B) (read : List (List ℕ)) (gone : List B) (line : List ℕ) (b : B)
    → gone ≡ map f read
    → b ≡ f line
    → gone ++ (b ∷ []) ≡ map f (read ++ (line ∷ []))
all_and_line f read gone line b g l = rw (g, l) (sym (map-append f read (line ∷ [])))
