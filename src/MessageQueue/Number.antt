-- ===== src/MessageQueue/Number.antt =====
-- The buffer for the number in front of a line in ALSP/sysv_msg_regex.c.
use temp.Base.{ℕ, ◌-◌, ◌≡◌, ◌≤◌, ◌<◌, some, List, [], ◌∷◌, get_or, length}
use temp.Base.Sys.{Call, Env, Out, ret, running, fault, regexec}

-- `regexec` matches within its string.
abbrev pub MatchesInside : Env → Type 0
MatchesInside e =
    (line : List ℕ) (h : List Call) → get_or (e (regexec line ∷ h)).bytes 5 0 ≤ length line

-- The digits of the number that `regexec` found.
abbrev pub digits : Env → List Call → ℕ
digits e h = get_or (e h).bytes 3 0 - get_or (e h).bytes 2 0

-- Every number found so far has fewer than ten digits.
unfoldable pub ShortNumbers : Env → List Call → Type 0
ShortNumbers e [] = Unit
ShortNumbers e (regexec line ∷ h) =
    ((e (regexec line ∷ h)).ret ≡ some 0 → digits e (regexec line ∷ h) < 10) × ShortNumbers e h
ShortNumbers e (_ ∷ h) = ShortNumbers e h

-- A run goes on, or comes to its end, with short numbers only; it comes to a fault at a longer one.
abbrev pub Numbers : Env → Out (Unit {0}) → Type 0
Numbers e (ret a h) = ShortNumbers e h
Numbers e (running h) = ShortNumbers e h
Numbers e (fault h) =
    (line : List ℕ) × (t : List Call) × (h ≡ regexec line ∷ t)
    × ((e h).ret ≡ some 0)
    × (10 ≤ digits e h)
    × ShortNumbers e t
Numbers e _ = ⊥
