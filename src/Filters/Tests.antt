-- ===== src/Filters/Tests.antt =====
-- The filters on an input of one text.
use temp.Base.{ℕ, refl, none, some, List, [], ◌∷◌, length}
use temp.Base.Sys.{Env, Errno, read, write, fgets}
use temp.Base.Traffic.{written, got}
use temp.Filters.{mycp_main, pager_loop}
use temp.Filters.Copies.{Copied, mycp_main-Copied}
use temp.Filters.Pager.{Paged, read_text, pager_loop-Paged}

-- The input is "hi" without an end, and the output takes all.
abbrev hi : List ℕ
hi = b'h' ∷ b'i' ∷ []

abbrev echoing : Env
echoing (read f n ∷ h) = record { ret = some 2; errno = Errno.other; bytes = hi }
echoing (fgets n ∷ h) = record { ret = some 1; errno = Errno.other; bytes = hi }
echoing (write f text ∷ h) = record { ret = some (length text); errno = Errno.other; bytes = [] }
echoing h = record { ret = none; errno = Errno.other; bytes = [] }

mycp_main-Copied_example : Copied echoing (mycp_main 3 echoing [])
unfolding written got
mycp_main-Copied_example = mycp_main-Copied echoing 3 [] refl

pager_loop-Paged_example : Paged echoing 5 (pager_loop 3 5 echoing [])
unfolding written read_text
pager_loop-Paged_example = pager_loop-Paged echoing 3 5 [] refl
