-- ===== src/Pty/Tests.antt =====
-- The copying loop of APUE/loop.c from a terminal that gives two bytes at a time, to one that takes one.
use temp.Base.{
  ℕ, ap, true, Option, none, some, List, [], ◌∷◌, arith, length, length-take, take, if◌then◌else◌,
}
use temp.Base.Sys.{Env, Errno, read, write, pure, halt}
use temp.Rwn.Loops.{ReadBounded, WriteBounded}
use temp.Pty.Loop.{relay}
use temp.Pty.Relay.{Relays, relay_lem}

abbrev keys : List ℕ
keys = b'h' ∷ b'i' ∷ []

abbrev typed : Env
typed (write f (x ∷ text) ∷ h) = record { ret = some 1; errno = Errno.other; bytes = [] }
typed (read f n ∷ []) = record {
  ret = some (length (take n keys));
  errno = Errno.other;
  bytes = take n keys;
}
typed (c ∷ h) = record { ret = some 0; errno = Errno.other; bytes = [] }
typed [] = record { ret = some 0; errno = Errno.other; bytes = [] }

number : Option ℕ → ℕ
number none = 0
number (some k) = k

typed_reads : ReadBounded typed 5
unfolding number
typed_reads n k [] x = omega (arith, ap number x, length-take n keys)
typed_reads n k (c ∷ h) x = omega (arith, ap number x, length-take n keys)

typed_writes : WriteBounded typed 1
unfolding number
typed_writes [] k h x = omega (arith, ap number x)
typed_writes (y ∷ text) k h x = omega (arith, ap number x)

relay_lem_example : Relays typed 5 1 [] (relay (if true then halt 1 else pure tt) 3 5 1 typed [])
relay_lem_example = relay_lem true 3 5 1 typed [] typed_reads typed_writes
