-- ===== src/NonblockServer/Tests.antt =====
-- The listener of ALSP/io_poll_nb.c with three connections that wait, and a table with one free place.
use temp.Base.{
  ℕ, suc, ◌+◌, ◌≡◌, ◌≤◌, refl, none, some, Option, List, [], ◌∷◌, arith, ltb, Bool-cases, inl, inr,
  length, length-append, replicate, if◌then◌else◌, ◌==◌, false,
}
use temp.Base.Sys.{Call, Env, Errno, accept}
use temp.PollServer.{blank, Table}
use temp.NonblockServer.Backlog.{AllIn, accept_all_lem, arrivals, given}

abbrev nearly_full : Table
nearly_full = record {
  pollfds = record blank { fd = 3 } ∷ replicate 254 blank;
  cnt_fd_socket = 254;
}

-- How often `accept` was called: the first three calls give 10, 11 and 12.
abbrev calls : List Call → ℕ
calls [] = 0
calls (accept l ∷ h) = suc (calls h)
calls (c ∷ h) = calls h

abbrev three_clients : Env
three_clients [] = record { ret = none; errno = Errno.other; bytes = [] }
three_clients (accept l ∷ h) = record {
  ret = if ltb (calls h) 3 then some (10 + calls h) else none;
  errno = Errno.eagain;
  bytes = [];
}
three_clients (c ∷ h) = record { ret = some 0; errno = Errno.other; bytes = [] }

given-le-one : (o : Option ℕ) → length (given o) ≤ 1
given-le-one none = omega arith
given-le-one (some f) = omega arith

arrivals-le-calls : (h : List Call) → length (arrivals three_clients 3 h) ≤ calls h
unfolding arrivals
arrivals-le-calls [] = omega arith
arrivals-le-calls (accept g ∷ h) = elim (Bool-cases (g == 3)) [
  | inl y ↦
      let o = (three_clients (accept g ∷ h)).ret in
      rw y (
        omega (
          arith,
          arrivals-le-calls h,
          given-le-one o,
          length-append (arrivals three_clients 3 h) (given o),
        ))
  | inr y ↦ rw y (omega (arith, arrivals-le-calls h))
]
arrivals-le-calls (c ∷ h) = arrivals-le-calls h

no_fourth :
    (h : List Call)
    → 3 ≤ length (arrivals three_clients 3 h)
    → (three_clients (accept 3 ∷ h)).ret ≡ none
no_fourth h many =
    let over : ltb (calls h) 3 ≡ false = not_below (calls h) (omega (arith, arrivals-le-calls h)) in
    rw over refl
  where
    not_below : (n : ℕ) → 3 ≤ n → ltb n 3 ≡ false
    not_below n le = ground arith

accept_all_lem_example : AllIn 4 nearly_full 3 three_clients []
accept_all_lem_example =
    accept_all_lem 3 3 nearly_full 3 three_clients [] (refl, omega arith, omega arith, refl)
      no_fourth (omega arith)
