-- ===== src/MessageQueue/Tests.antt =====
-- The senders on files of one line or two.
use temp.Base.{refl, some, [], ◌∷◌, until_nul}
use temp.Base.Sys.{Env, Errno, fgets, feof, regexec}
use temp.MessageQueue.Posix.{send_loop}
use temp.MessageQueue.Typed.{typed_loop}
use temp.MessageQueue.Lines.{lines, texts, messages}
use temp.MessageQueue.Last.{LinesAreFull, Queued, send_loop-Queued}
use temp.MessageQueue.Short.{Typed, typed_loop-Typed}

-- Every line is "1:hi", which `regexec` finds no fault with, and the queue takes every message.
abbrev greetings : Env
greetings (feof ∷ h) = record { ret = some 0; errno = Errno.other; bytes = [] }
greetings (fgets n ∷ h) = record {
  ret = some 1;
  errno = Errno.other;
  bytes = b'1' ∷ b':' ∷ b'h' ∷ b'i' ∷ b'\n' ∷ 0 ∷ [];
}
greetings (regexec [] ∷ h) = record { ret = some 1; errno = Errno.other; bytes = [] }
greetings (regexec (c ∷ line) ∷ h) = record {
  ret = some 0;
  errno = Errno.other;
  bytes = 0 ∷ 1 ∷ 0 ∷ 1 ∷ 0 ∷ 1 ∷ [];
}
greetings h = record { ret = some 0; errno = Errno.other; bytes = [] }

greetings-LinesAreFull : LinesAreFull greetings
unfolding until_nul
greetings-LinesAreFull h e = cc

send_loop-Queued_example : Queued greetings (send_loop 3 4 greetings [])
unfolding lines texts
send_loop-Queued_example = send_loop-Queued greetings 3 4 [] greetings-LinesAreFull refl

typed_loop-Typed_example : Typed greetings (typed_loop 3 4 greetings [])
unfolding lines messages
typed_loop-Typed_example = typed_loop-Typed greetings 3 4 [] tt refl
