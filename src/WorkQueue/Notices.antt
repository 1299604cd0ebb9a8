-- ===== src/WorkQueue/Notices.antt =====
-- The process of ALSP/cond_var_rts.c against that of ALSP/cond_var.c, and its notifications.
use mathlib.Core.Path.{fun_ext}
use temp.Base.{ℕ, ◌+◌, ◌*◌, ◌≡◌, refl, sym, ap, List, [], ◌∷◌, ◌++◌, arith, count, hit}
use temp.WorkQueue.Threads.{
  Worker, polling, asleep, working, System, feed, broadcast, pop, wait, wake, finish, Reach, begin,
  next, update, woken,
}
use temp.WorkQueue.Rts.{
  Thread, popping, waiting, busy, notifying, Process, put_thread, roused, RtsStep, rts_feed,
  rts_broadcast, rts_take, rts_wait, rts_wake, job_done, queue_signal, no_signal, take_signal,
  end_of_input, interrupt, RtsReach, rts_begin, rts_next,
}

-- A worker before its `sigqueue` is one that is still at its job.
unfoldable pub as_worker : Thread → Worker
as_worker popping = polling
as_worker waiting = asleep
as_worker (busy x) = working x
as_worker (notifying x) = working x

-- The process as cond_var.c has it, without its signals.
abbrev pub without_signals : Process → System
without_signals s = record {
  queue = s.queue;
  reader = s.reader;
  workers = λ i. as_worker (s.threads i);
  accepted = s.accepted;
  taken = s.taken;
}

as_worker-put_thread :
    (f : ℕ → Thread) (i : ℕ) (w : Thread)
    → (λ j. as_worker (put_thread f i w j)) ≡ update (λ j. as_worker (f j)) i (as_worker w)
as_worker-put_thread f i w = fun_ext (λ j. ground arith)

as_worker-roused : (w : Thread) → as_worker (roused w) ≡ woken (as_worker w)
unfolding as_worker
as_worker-roused popping = refl
as_worker-roused waiting = refl
as_worker-roused (busy x) = refl
as_worker-roused (notifying x) = refl

-- The same state with its workers written in another way.
with_workers :
    (s : System) {f : ℕ → Worker} → s.workers ≡ f → Reach s → Reach (record s { workers = f })
with_workers s e r = rw (sym e) r

step_refines : {s t : Process} → RtsStep s t → Reach (without_signals s) → Reach (without_signals t)
unfolding as_worker
step_refines {s} (rts_feed xs n l e) r = next r (feed xs n l e)
step_refines {s} (rts_broadcast e) r =
    with_workers _ (fun_ext (λ i. sym (as_worker-roused (s.threads i)))) (next r (broadcast e))
step_refines {s} (rts_take i x q e p) r =
    with_workers _ (sym (as_worker-put_thread s.threads i (busy x)))
      (next r (pop i x q (ap as_worker e) p))
step_refines {s} (rts_wait i e p) r =
    with_workers _ (sym (as_worker-put_thread s.threads i waiting))
      (next r (wait i (ap as_worker e) p))
step_refines {s} (rts_wake i e) r =
    with_workers _ (sym (as_worker-put_thread s.threads i popping))
      (next r (wake i (ap as_worker e)))
step_refines {s} (job_done i x e) r = with_workers _ (fun_ext (λ j. ground arith)) r
step_refines {s} (queue_signal i x e) r =
    with_workers _ (sym (as_worker-put_thread s.threads i popping))
      (next r (finish i x (ap as_worker e)))
step_refines (no_signal i x e) r = r
step_refines (take_signal i rest e) r = r
step_refines (end_of_input e) r = r
step_refines interrupt r = r

-- Whatever the threads of cond_var_rts.c do with their queue, those of cond_var.c can do: without its
-- signals, every state that the process can reach is one that the process of cond_var.c can reach.
pub rts_refines : {s : Process} → RtsReach s → Reach (without_signals s)
unfolding as_worker
rts_refines rts_begin = begin
rts_refines (rts_next r up st) = step_refines st (rts_refines r)

-- The jobs that a thread has taken and not yet told of.
unfoldable pub due : Thread → ℕ
due popping = 0
due waiting = 0
due (busy x) = 1
due (notifying x) = 1

count-append : (i : ℕ) (xs ys : List ℕ) → count i (xs ++ ys) ≡ count i xs + count i ys
count-append i [] ys = omega arith
count-append i (x ∷ xs) ys = omega (arith, count-append i xs ys)

due-roused : (w : Thread) → due (roused w) ≡ due w
unfolding due
due-roused popping = refl
due-roused waiting = refl
due-roused (busy x) = refl
due-roused (notifying x) = refl

Accounted : Process → ℕ → Type 0
Accounted s j = count j s.takers ≡ count j s.notices + (count j s.pending + due (s.threads j))

-- What becomes of that number when the thread `i` goes on.
put_due :
    (f : ℕ → Thread) (i j m n : ℕ) (w : Thread)
    → due (f i) ≡ m
    → due w ≡ n
    → due (put_thread f i w j) + hit j i * m ≡ due (f j) + hit j i * n
put_due f i j m n w a b = ground arith

step-Accounted : {s t : Process} → RtsStep s t → (j : ℕ) → Accounted s j → Accounted t j
unfolding due Accounted
step-Accounted {s} (rts_feed xs n l e) j a = a
step-Accounted {s} (rts_broadcast e) j a = omega (arith, a, due-roused (s.threads j))
step-Accounted {s} (rts_take i x q e p) j a =
    omega (
      arith,
      a,
      put_due s.threads i j 0 1 (busy x) (ap due e) refl,
      count-append j s.takers (i ∷ []),
    )
step-Accounted {s} (rts_wait i e p) j a =
    omega (arith, a, put_due s.threads i j 0 0 waiting (ap due e) refl)
step-Accounted {s} (rts_wake i e) j a =
    omega (arith, a, put_due s.threads i j 0 0 popping (ap due e) refl)
step-Accounted {s} (job_done i x e) j a =
    omega (arith, a, put_due s.threads i j 1 1 (notifying x) (ap due e) refl)
step-Accounted {s} (queue_signal i x e) j a =
    omega (
      arith,
      a,
      put_due s.threads i j 1 0 popping (ap due e) refl,
      count-append j s.pending (i ∷ []),
    )
step-Accounted (no_signal i x e) j a = a
step-Accounted {s} (take_signal i rest e) j a =
    omega (arith, a, ap (count j) e, count-append j s.notices (i ∷ []))
step-Accounted (end_of_input e) j a = a
step-Accounted interrupt j a = a

-- In every state that the process of cond_var_rts.c can reach, no notification is lost or made twice:
-- for each thread, the jobs that it has taken are the notifications that were printed for it, those that
-- are still pending, and one more just when it is at a job or before its `sigqueue`.
pub notices_lem :
    {s : Process}
    → RtsReach s
    → (j : ℕ) → count j s.takers ≡ count j s.notices + (count j s.pending + due (s.threads j))
unfolding due Accounted
notices_lem rts_begin j = refl
notices_lem (rts_next r up st) j = step-Accounted st j (notices_lem r j)
