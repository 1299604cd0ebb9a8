-- ===== src/WorkQueue/Main.antt =====
-- `main`, `tfunc_a` and `clean_thread` of ALSP/cond_var.c and ALSP/cond_var_rts.c over the calls of one
-- thread. The initialisation of the mutex and of the condition, the mask of signals and permission bits
-- are left out, and `calloc` of the queue is the allocation of one element.
use temp.Base.{ℕ, zero, suc, ◌+◌, Option, none, some, List, [], ◌∷◌, take}
use temp.Base.Sys.{
  Errno, M, pure, halt, unfinished, sys, ◌>>=◌, ◌>>◌, mkfifo, open_file, read, cond_broadcast,
  malloc, pthread_create, pthread_join,
}
use temp.WorkQueue.{Workqueue, push_item}

-- What a thread runs.
pub data Func : Type 0 where
  tfunc_a tfunc_b start_sigthread : Func

-- `t_arg` of cond_var.c, and that of cond_var_rts.c, which ends with empty entries.
abbrev pub thread_table : List (Option Func)
thread_table = some tfunc_a ∷ some tfunc_b ∷ some tfunc_b ∷ some tfunc_b ∷ none ∷ []

abbrev pub rts_table : List (Option Func)
rts_table =
    some tfunc_a
    ∷ some tfunc_b
    ∷ some tfunc_b
    ∷ some tfunc_b
    ∷ some start_sigthread
    ∷ none
    ∷ none
    ∷ none
    ∷ none
    ∷ none
    ∷ []

-- "/tmp/my_fifo"
abbrev pub path_fifo : List ℕ
path_fifo = b'/' ∷ b't' ∷ b'm' ∷ b'p' ∷ b'/' ∷ b'm' ∷ b'y' ∷ b'_' ∷ b'f' ∷ b'i' ∷ b'f' ∷ b'o' ∷ []

-- The loop of `main`: it ends at the first empty entry. `i` is the thread's place.
pub create_threads : ℕ → List (Option Func) → M (Unit {0})
create_threads i [] = pure tt
create_threads i (none ∷ rest) = pure tt
create_threads i (some func ∷ rest) = do
  r ← sys (pthread_create i)
  elim r.ret [ some zero ↦ create_threads (i + 1) rest | _ ↦ halt 1 ]

-- `clean_thread`, for the `n` entries from place `i` on: it joins every entry, the empty ones too.
pub clean_thread : ℕ → ℕ → M (Unit {0})
clean_thread i zero = pure tt
clean_thread i (suc n) = do sys (pthread_join i); clean_thread (i + 1) n

-- `main`, with NUM_THREADS and the table of the program.
pub main : ℕ → List (Option Func) → M ℕ
main num_threads table = do
  wq ← sys (malloc 1)
  elim wq.ret [
    | none ↦ halt 1
    | some _ ↦ do create_threads 0 table; clean_thread 0 num_threads; pure 0
  ]

-- The loop of `tfunc_a`, in at most `n` rounds: what the queue is after each round is this thread's view,
-- with nothing popped meanwhile.
pub feed_loop : ℕ → ℕ → Workqueue → M Workqueue
feed_loop zero fd wq = unfinished
feed_loop (suc n) fd wq = do
  r ← sys (read fd 32)
  elim r.ret [
    | none ↦ halt 1
    | some zero ↦ halt 1
    | some (suc k) ↦ do sys cond_broadcast; feed_loop n fd (push_item wq (take (suc k) r.bytes)).1
  ]

-- The opening of the FIFO, and then the loop.
pub read_fifo : ℕ → Workqueue → M Workqueue
read_fifo n wq = do
  m ← sys (mkfifo path_fifo)
  let go_on : M Workqueue = do
    f ← sys (open_file path_fifo)
    elim f.ret [ none ↦ halt 1 | some fd ↦ feed_loop n fd wq ]
  elim m.ret [ some _ ↦ go_on | none ↦ elim m.errno [ Errno.eexist ↦ go_on | _ ↦ halt 1 ] ]
