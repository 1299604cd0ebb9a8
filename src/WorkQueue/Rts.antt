-- ===== src/WorkQueue/Rts.antt =====
-- The threads of ALSP/cond_var_rts.c, whose queue is that of cond_var.c: a worker tells the process of
-- every job that it has done, by a real-time signal, and a thread of its own takes the signals. They
-- are blocked in all threads, so that they stay pending until `sigwaitinfo` takes them, which it does
-- in the order in which `sigqueue` sent them.
use mathlib.Core.Logic.{ite}
use native.Mathlib.Decide.{ℕ_discrete}
use temp.Base.{ℕ, ◌≡◌, ◌≢◌, ◌≤◌, Bool, true, false, none, some, List, [], ◌∷◌, ◌++◌, length, take}
use temp.WorkQueue.{Workqueue, new_queue, push_item, pop_item}
use temp.WorkQueue.Threads.{Reader, reading, broadcasting}

-- `tfunc_b` about to run the body of `pop_item`, in `pthread_cond_wait`, in `process_job`, or before its
-- `sigqueue`.
pub data Thread : Type 0 where
  popping waiting : Thread
  busy notifying : ℕ → Thread

-- The process. A thread is known by its index in `t_arg`, which is the value that its signals carry.
-- `accepted`, `taken` and `takers` record the items pushed and popped so far and who popped them, and
-- `notices` what `start_sigthread` printed, all in order.
pub record Process : Type 0 where
  pub queue : Workqueue
  pub reader : Reader
  pub threads : ℕ → Thread
  pub accepted : List ℕ
  pub taken : List ℕ
  pub takers : List ℕ
  pub pending : List ℕ
  pub notices : List ℕ
  pub is_over : Bool

abbrev pub put_thread : (ℕ → Thread) → ℕ → Thread → ℕ → Thread
put_thread f i w j = ite (ℕ_discrete i j) w (f j)

abbrev pub roused : Thread → Thread
roused waiting = popping
roused w = w

abbrev pub launch : Process
launch = record {
  queue = new_queue;
  reader = reading;
  threads = λ _. popping;
  accepted = [];
  taken = [];
  takers = [];
  pending = [];
  notices = [];
  is_over = false;
}

abbrev pub rts_push : Process → List ℕ → Process
rts_push s xs = record s {
  queue = (push_item s.queue xs).1;
  reader = broadcasting;
  accepted = s.accepted ++ take (push_item s.queue xs).0 xs;
}

abbrev pub rts_pop : Process → ℕ → ℕ → Workqueue → Process
rts_pop s i x q = record s {
  queue = q;
  threads = put_thread s.threads i (busy x);
  taken = s.taken ++ (x ∷ []);
  takers = s.takers ++ (i ∷ []);
}

-- `sigqueue` of the thread `i`.
abbrev pub rts_notify : Process → ℕ → Process
rts_notify s i = record s {
  threads = put_thread s.threads i popping;
  pending = s.pending ++ (i ∷ []);
}

-- One step of one thread. The process is over when `tfunc_a` reads nothing more, when a signal cannot be
-- queued, or by SIGINT, which alone is not blocked.
pub data RtsStep (s : Process) : Process → Type 0 where
  rts_feed :
      (xs : List ℕ) → xs ≢ [] → length xs ≤ 32 → s.reader ≡ reading → RtsStep s (rts_push s xs)
  rts_broadcast :
      s.reader ≡ broadcasting
      → RtsStep s (record s { reader = reading; threads = λ i. roused (s.threads i) })
  rts_take :
      (i x : ℕ) (q : Workqueue)
      → s.threads i ≡ popping
      → pop_item s.queue ≡ some (x, q)
      → RtsStep s (rts_pop s i x q)
  rts_wait :
      (i : ℕ)
      → s.threads i ≡ popping
      → pop_item s.queue ≡ none
      → RtsStep s (record s { threads = put_thread s.threads i waiting })
  rts_wake :
      (i : ℕ)
      → s.threads i ≡ waiting
      → RtsStep s (record s { threads = put_thread s.threads i popping })
  job_done :
      (i x : ℕ)
      → s.threads i ≡ busy x
      → RtsStep s (record s { threads = put_thread s.threads i (notifying x) })
  queue_signal : (i x : ℕ) → s.threads i ≡ notifying x → RtsStep s (rts_notify s i)
  no_signal : (i x : ℕ) → s.threads i ≡ notifying x → RtsStep s (record s { is_over = true })
  take_signal :
      (i : ℕ) (rest : List ℕ)
      → s.pending ≡ i ∷ rest
      → RtsStep s (record s { pending = rest; notices = s.notices ++ (i ∷ []) })
  end_of_input : s.reader ≡ reading → RtsStep s (record s { is_over = true })
  interrupt : RtsStep s (record s { is_over = true })

pub data RtsReach : Process → Type 0 where
  rts_begin : RtsReach launch
  rts_next : {s t : Process} → RtsReach s → s.is_over ≡ false → RtsStep s t → RtsReach t
