-- ===== src/FifoGame/Tests.antt =====
-- The guessing game of sp/ipc/ipc.c on concrete inputs.
use temp.Base.{ℕ, ◌+◌, ◌<◌, ◌≤◌, ◌≡◌, ◌⊎◌, refl, some, List, [], ◌∷◌, get_or}
use temp.Base.Sys.{Env, Errno}
use temp.FifoGame.{correct, wrong, check, strncmp_eq, tally_all, tally_row, tally}
use temp.FifoGame.Score.{hit, check_lem}

-- The guess 358: one strike and two balls.
abbrev guess : List ℕ
guess = b'3' ∷ b'5' ∷ b'8' ∷ []

one_strike_two_balls : check guess ≡ (wrong, 1, 2)
unfolding check strncmp_eq tally_all tally_row tally
one_strike_two_balls = refl

check_lem_example :
    (check guess ≡ (correct, 3, 0)
      × get_or guess 0 0 ≡ b'3'
      × get_or guess 1 0 ≡ b'8'
      × get_or guess 2 0 ≡ b'5')
    ⊎ ((check guess).0 ≡ wrong
        × (check guess).1
          ≡ hit 0 (get_or guess 0 0) + hit 1 (get_or guess 1 0) + hit 2 (get_or guess 2 0)
        × (check guess).1 < 3
        × (check guess).1 + (check guess).2 ≤ 3)
check_lem_example = check_lem guess

-- Every read comes back empty.
abbrev silent : Env
silent h = record { ret = some 0; errno = Errno.other; bytes = [] }
