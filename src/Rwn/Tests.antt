-- ===== src/Rwn/Tests.antt =====
-- `readn` and `writen` of APUE/rwn.c over a pipe that takes one byte and gives two bytes at a time.
use temp.Base.{
  ℕ, suc, ◌<◌, ◌≡◌, ◌∙◌, refl, sym, ap, Option, none, some, List, [], ◌∷◌, ◌++◌, append_assoc,
  arith, Bool-cases, inl, inr, length, length-take, take, drop, take-append-drop, min, ap₂, ◌==◌,
  if◌then◌else◌,
}
use temp.Base.Traffic.{take_all, written, got}
use temp.Base.Sys.{Call, Env, Errno, ret, read, write, ◌>>=◌}
use temp.Rwn.{readn, writen}
use temp.Rwn.Loops.{ReadBounded, WriteBounded}
use temp.Rwn.RoundTrip.{Pipe, append_cancel, writen_then_readn}

-- What the pipe holds after a history.
abbrev held : List Call → List ℕ
held [] = []
held (write f text ∷ h) = if f == 4 then held h ++ take 1 text else held h
held (read f n ∷ h) = if f == 3 then drop (min n 2) (held h) else held h
held (c ∷ h) = held h

abbrev narrow : Env
narrow [] = record { ret = none; errno = Errno.other; bytes = [] }
narrow (write f text ∷ h) = record {
  ret = some (min 1 (length text));
  errno = Errno.other;
  bytes = [];
}
narrow (read f n ∷ h) = record {
  ret = some (length (take (min n 2) (held h)));
  errno = Errno.other;
  bytes = take (min n 2) (held h);
}
narrow (c ∷ h) = record { ret = some 0; errno = Errno.other; bytes = [] }

take-min : (text : List ℕ) → take (min 1 (length text)) text ≡ take 1 text
take-min [] = refl
take-min (x ∷ xs) = let e : min 1 (suc (length xs)) ≡ 1 = omega arith in rw e refl

in_order : (h : List Call) → got narrow 3 h ++ held h ≡ written narrow 4 h
unfolding got written
in_order [] = refl
in_order (write f text ∷ h) = elim (Bool-cases (f == 4)) [
  | inl y ↦ rw y (
      sym (append_assoc (got narrow 3 h) (held h) (take 1 text))
      ∙ ap₂ (λ a b. a ++ b) (in_order h) (sym (take-min text)))
  | inr y ↦ rw y (in_order h)
]
in_order (read f n ∷ h) = elim (Bool-cases (f == 3)) [
  | inl y ↦ rw y (
      ap (λ t. (got narrow 3 h ++ t) ++ drop (min n 2) (held h))
        (take_all (length (take (min n 2) (held h))) (take (min n 2) (held h)) (omega arith))
      ∙ append_assoc (got narrow 3 h) (take (min n 2) (held h)) (drop (min n 2) (held h))
      ∙ ap (λ t. got narrow 3 h ++ t) (take-append-drop (min n 2) (held h))
      ∙ in_order h)
  | inr y ↦ rw y (in_order h)
]
in_order (c ∷ h) = in_order h

number : Option ℕ → ℕ
number none = 0
number (some k) = k

narrow_reads : ReadBounded narrow 3
unfolding number
narrow_reads n k h x = omega (arith, ap number x, length-take (min n 2) (held h))

narrow_writes : WriteBounded narrow 4
unfolding number
narrow_writes text k h x = omega (arith, ap number x)

narrow_gives :
    (n : ℕ) (h : List Call) (y : List ℕ)
    → 0 < n
    → 0 < length y
    → got narrow 3 h ++ y ≡ written narrow 4 h
    → 0 < length (take (min n 2) (held h))
narrow_gives n h y p q order =
    let same : y ≡ held h = append_cancel (got narrow 3 h) y (held h) (order ∙ sym (in_order h)) in
    omega (arith, ap length same, length-take (min n 2) (held h))

narrow-Pipe : Pipe narrow 3 4
unfolding number
narrow-Pipe = record {
  reads = narrow_reads;
  writes = narrow_writes;
  in_order = λ h. (held h, in_order h);
  takes = λ text h p. ((λ z. cc), (λ z. absurd (omega (arith, ap number z))));
  gives = λ n h y p q order.
      ((λ z. cc), (λ z. absurd (omega (arith, ap number z, narrow_gives n h y p q order))));
}

nothing_yet : got narrow 3 [] ≡ written narrow 4 []
unfolding got written
nothing_yet = refl

writen_then_readn_example :
    (h' : List Call) × ((writen 4 (7 ∷ 8 ∷ 9 ∷ []) 3 >>= λ _. readn 3 3) narrow []
      ≡ ret (some 3, 7 ∷ 8 ∷ 9 ∷ []) h')
writen_then_readn_example = writen_then_readn narrow 3 4 (7 ∷ 8 ∷ 9 ∷ []) [] narrow-Pipe nothing_yet
