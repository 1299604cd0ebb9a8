-- ===== src/FifoGame.antt =====
-- sp/ipc/ipc.c: a guessing game between two processes over two FIFOs. A buffer is a list of bytes, and
-- reads as zero behind its end, as the buffer of the child does after `memset`.
pub mod Score
pub mod Child
mod Tests
use temp.Base.{
  ℕ, zero, suc, ◌+◌, Bool, true, false, ◌&&◌, Option, none, some, List, [], ◌∷◌, ◌==◌,
  if◌then◌else◌, get_or, take,
}
use temp.Base.Sys.{
  Call, Errno, M, pure, halt, unfinished, sys, ◌>>=◌, ◌>>◌, open_file, read, write, mkfifo, getline,
  fork,
}

-- CORRECT and WRONG
abbrev pub correct : ℕ
correct = 1

abbrev pub wrong : ℕ
wrong = 0

abbrev pub goal : List ℕ
goal = b'3' ∷ b'8' ∷ b'5' ∷ []

-- `!strncmp(a, b, n)` from the place `i` on.
pub strncmp_eq : List ℕ → List ℕ → ℕ → ℕ → Bool
strncmp_eq a b i zero = true
strncmp_eq a b i (suc n) =
    let x = get_or a i 0 in
    let rest = strncmp_eq a b (i + 1) n in
    if x == get_or b i 0 then if x == 0 then true else rest else false

-- The body of the two loops of `check` and the loops, over what is left of `j` and of `i`.
pub tally : List ℕ → ℕ → ℕ → ℕ × ℕ → ℕ × ℕ
tally buf i j (strike, ball) =
    if get_or goal i 0 == get_or buf j 0
    then if i == j then (strike + 1, ball) else (strike, ball + 1)
    else (strike, ball)

pub tally_row : List ℕ → ℕ → ℕ → ℕ → ℕ × ℕ → ℕ × ℕ
tally_row buf i j zero s = s
tally_row buf i j (suc n) s = tally_row buf i (j + 1) n (tally buf i j s)

pub tally_all : List ℕ → ℕ → ℕ → ℕ × ℕ → ℕ × ℕ
tally_all buf i zero s = s
tally_all buf i (suc n) s = tally_all buf (i + 1) n (tally_row buf i 0 3 s)

-- `check`: its result, with the strikes and balls that it prints for a wrong guess.
pub check : List ℕ → ℕ × ℕ × ℕ
check buf =
    let (strike, ball) = tally_all buf 0 3 (0, 0) in
    if strncmp_eq buf goal 0 3 then (correct, 3, 0) else (wrong, strike, ball)

-- `open` again for as long as a signal interrupts it.
pub open_retry : ℕ → List ℕ → M (Option ℕ)
open_retry zero path = unfinished
open_retry (suc n) path = do
  r ← sys (open_file path)
  elim r.ret [
    | some fd ↦ pure (some fd)
    | none ↦ elim r.errno [ Errno.eintr ↦ open_retry n path | _ ↦ pure none ]
  ]

-- An `int` as it crosses the FIFO: four bytes, low byte first.
abbrev pub bytes_of : ℕ → List ℕ
bytes_of res = res ∷ 0 ∷ 0 ∷ 0 ∷ []

-- `while (1)` of `procchild`.
pub child_loop : ℕ → ℕ → ℕ → M ℕ
child_loop zero fd_req fd_res = unfinished
child_loop (suc n) fd_req fd_res =
    let again : M ℕ = child_loop n fd_req fd_res in
    let answer : ℕ → M ℕ = λ res. do
      w ← sys (write fd_res (bytes_of res))
      elim w.ret [ none ↦ halt 1 | some _ ↦ if res == correct then pure 0 else again ]
    in do
      r ← sys (read fd_req 8192)
      elim r.ret [
        | none ↦ again
        | some k ↦ if k == 3 then answer (check (take 3 r.bytes)).0 else again
      ]

abbrev pub path_req : List ℕ
path_req =
    b'/' ∷ b't' ∷ b'm' ∷ b'p' ∷ b'/' ∷ b'f' ∷ b'i' ∷ b'f' ∷ b'o' ∷ b'_' ∷ b'r' ∷ b'e' ∷ b'q' ∷ []

abbrev pub path_res : List ℕ
path_res =
    b'/' ∷ b't' ∷ b'm' ∷ b'p' ∷ b'/' ∷ b'f' ∷ b'i' ∷ b'f' ∷ b'o' ∷ b'_' ∷ b'r' ∷ b'e' ∷ b's' ∷ []

-- The opening of both FIFOs, in the order of the source, and what follows when both are open.
pub with_fifos : ℕ → (ℕ → ℕ → M ℕ) → M ℕ
with_fifos n play = do
  fd_req ← open_retry n path_req
  fd_res ← open_retry n path_res
  elim fd_req [ none ↦ halt 1 | some q ↦ elim fd_res [ none ↦ halt 1 | some s ↦ play q s ] ]

pub procchild : ℕ → M ℕ
procchild n = with_fifos n (child_loop n)

-- `while (1)` of `procparent`; `res` is what the last read left in the variable.
pub parent_loop : ℕ → ℕ → ℕ → ℕ → M ℕ
parent_loop zero res fd_req fd_res = unfinished
parent_loop (suc n) res fd_req fd_res =
    let hear : M ℕ = do
      r ← sys (read fd_res 4)
      elim r.ret [
        | none ↦ halt 1
        | some k ↦
            let res' = if k == 0 then res else get_or r.bytes 0 0 in
            let rest : M ℕ = parent_loop n res' fd_req fd_res in
            if res' == correct then pure 0 else rest
      ]
    in let guess : List ℕ → M ℕ = λ line. do
      w ← sys (write fd_req (take 3 line))
      elim w.ret [
        | none ↦ parent_loop n res fd_req fd_res
        | some k ↦ if k == 3 then hear else parent_loop n res fd_req fd_res
      ]
      in do l ← sys getline; elim l.ret [ none ↦ halt 1 | some _ ↦ guess l.bytes ]

pub procparent : ℕ → ℕ → M ℕ
procparent n res = with_fifos n (parent_loop n res)

-- `mkfifo` of both names: a FIFO that exists already will do.
pub make_fifo : List ℕ → M (Unit {0})
make_fifo path = do
  r ← sys (mkfifo path)
  elim r.ret [ some _ ↦ pure tt | none ↦ elim r.errno [ Errno.eexist ↦ pure tt | _ ↦ halt 1 ] ]

pub main : ℕ → ℕ → M ℕ
main n res = do
  make_fifo path_req
  make_fifo path_res
  pid ← sys fork
  elim pid.ret [ none ↦ halt 1 | some zero ↦ procchild n | some (suc _) ↦ procparent n res ]
