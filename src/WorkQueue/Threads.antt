-- ===== src/WorkQueue/Threads.antt =====
-- The threads of ALSP/cond_var.c: the reader `tfunc_a`, any number of workers `tfunc_b`, and the
-- mutex and condition between them. `push_item` and one pass of `pop_item` run under the mutex and
-- are one step each; `pthread_cond_wait` gives the mutex up and sleeps in the same step. The
-- broadcast of `tfunc_a` comes after the mutex is released, so it is a step of its own.
use mathlib.Core.Logic.{ite}
use native.Mathlib.Decide.{ℕ_discrete}
use temp.Base.{
  ℕ, zero, suc, ◌-◌, ◌≤◌, ◌≡◌, ◌≢◌, refl, sym, ◌∙◌, ap, List, [], ◌∷◌, ◌++◌, append_assoc, none,
  some, arith, length, take, min,
}
use temp.WorkQueue.{Workqueue, new_queue, push_item, pop_item}
use temp.WorkQueue.Window.{contents, IsValid, length-window}
use temp.WorkQueue.Refine.{push_item_refines, Popped, pop_item_refines}

-- `tfunc_a` at its `read`, or between `push_item` and `pthread_cond_broadcast`.
pub data Reader : Type 0 where
  reading broadcasting : Reader

-- `tfunc_b` about to run the body of `pop_item`, asleep in `pthread_cond_wait`, or in `process_job`.
pub data Worker : Type 0 where
  polling asleep : Worker
  working : ℕ → Worker

-- The process: `accepted` and `taken` record the items pushed and popped so far, in order.
pub record System : Type 0 where
  pub queue : Workqueue
  pub reader : Reader
  pub workers : ℕ → Worker
  pub accepted : List ℕ
  pub taken : List ℕ

abbrev pub update : (ℕ → Worker) → ℕ → Worker → ℕ → Worker
update f i w j = ite (ℕ_discrete i j) w (f j)

abbrev pub woken : Worker → Worker
woken asleep = polling
woken w = w

abbrev pub start : System
start = record {
  queue = new_queue;
  reader = reading;
  workers = λ _. polling;
  accepted = [];
  taken = [];
}

-- What one push, and one pop of `x`, make of the process.
abbrev pub after_push : System → List ℕ → System
after_push s xs = record s {
  queue = (push_item s.queue xs).1;
  reader = broadcasting;
  accepted = s.accepted ++ take (push_item s.queue xs).0 xs;
}

abbrev pub after_pop : System → ℕ → ℕ → Workqueue → System
after_pop s i x q = record s {
  queue = q;
  workers = update s.workers i (working x);
  taken = s.taken ++ (x ∷ []);
}

-- One step of one thread. `tfunc_a` reads at most 32 bytes at a time, and ends the process when it
-- reads none. The condition may also wake a worker for no reason, as POSIX allows.
pub data Step (s : System) : System → Type 0 where
  feed : (xs : List ℕ) → xs ≢ [] → length xs ≤ 32 → s.reader ≡ reading → Step s (after_push s xs)
  broadcast :
      s.reader ≡ broadcasting
      → Step s (record s { reader = reading; workers = λ i. woken (s.workers i) })
  pop :
      (i x : ℕ) (q : Workqueue)
      → s.workers i ≡ polling
      → pop_item s.queue ≡ some (x, q)
      → Step s (after_pop s i x q)
  wait :
      (i : ℕ)
      → s.workers i ≡ polling
      → pop_item s.queue ≡ none
      → Step s (record s { workers = update s.workers i asleep })
  wake : (i : ℕ) → s.workers i ≡ asleep → Step s (record s { workers = update s.workers i polling })
  finish :
      (i x : ℕ)
      → s.workers i ≡ working x
      → Step s (record s { workers = update s.workers i polling })

pub data Reach : System → Type 0 where
  begin : Reach start
  next : {s t : System} → Reach s → Step s t → Reach t

pub record Inv (s : System) : Type 0 where
  pub valid : IsValid s.queue
  pub fifo : s.accepted ≡ s.taken ++ contents s.queue
  pub no_lost_wakeup : (i : ℕ) → s.workers i ≡ asleep → s.reader ≡ reading → contents s.queue ≡ []

Inv-start : Inv start
Inv-start = record { valid = omega arith; fifo = refl; no_lost_wakeup = λ i e r. refl }

take-min : (n : ℕ) (xs : List ℕ) → take (min (length xs) n) xs ≡ take n xs
take-min zero xs = let e : min (length xs) 0 ≡ 0 = omega arith in ap (λ k. take k xs) e
take-min (suc n) [] = let e : min 0 (suc n) ≡ 0 = omega arith in ap (λ k. take {A = ℕ} k []) e
take-min (suc n) (x ∷ xs) =
    let e : min (suc (length xs)) (suc n) ≡ suc (min (length xs) n) = omega arith in
    ap (λ k. take k (x ∷ xs)) e ∙ ap (λ r. x ∷ r) (take-min n xs)

Inv-feed : {s : System} (xs : List ℕ) → Inv s → Inv (after_push s xs)
Inv-feed {s} xs v =
    let p = push_item_refines s.queue xs v.valid in
    record {
      valid = p.2;
      fifo =
          rw (v.fifo, p.1, p.0, take-min (64 - s.queue.cnt) xs)
            (append_assoc s.taken (contents s.queue) (take (64 - s.queue.cnt) xs));
      no_lost_wakeup = λ i e r. cc;
    }

Popped-pop : (s : System) → Inv s → Popped s.queue (pop_item s.queue)
Popped-pop s v = pop_item_refines s.queue v.valid

update_asleep :
    (f : ℕ → Worker) (i j : ℕ) (w : Worker) → w ≢ asleep → update f i w j ≡ asleep → f j ≡ asleep
update_asleep f i j w n e = ground arith

woken-ne-asleep : (w : Worker) → woken w ≢ asleep
woken-ne-asleep polling e = cc
woken-ne-asleep asleep e = cc
woken-ne-asleep (working x) e = cc

cons-ne-nil : (x : ℕ) (xs : List ℕ) → x ∷ xs ≢ []
cons-ne-nil x xs e = cc

Inv-pop :
    {s : System} (i x : ℕ) (q : Workqueue)
    → pop_item s.queue ≡ some (x, q)
    → Inv s
    → Inv (after_pop s i x q)
Inv-pop {s} i x q e v =
    let p : Popped s.queue (some (x, q)) = rw e at (Popped-pop s v) in
    record {
      valid = p.1;
      fifo = rw (v.fifo, p.0) (sym (append_assoc s.taken (x ∷ []) (contents q)));
      no_lost_wakeup = λ j a r.
          let was = v.no_lost_wakeup j (update_asleep s.workers i j (working x) (λ c. cc) a) r in
          absurd (cons-ne-nil x (contents q) (sym p.0 ∙ was));
    }

Step-Inv : {s t : System} → Step s t → Inv s → Inv t
Step-Inv (feed xs _ _ _) v = Inv-feed xs v
Step-Inv {s} (broadcast r) v = record {
  valid = v.valid;
  fifo = v.fifo;
  no_lost_wakeup = λ i a _. absurd (woken-ne-asleep (s.workers i) a);
}
Step-Inv (pop i x q _ e) v = Inv-pop i x q e v
Step-Inv {s} (wait i p e) v = record {
  valid = v.valid;
  fifo = v.fifo;
  no_lost_wakeup = λ j a r. let q : Popped s.queue none = rw e at (Popped-pop s v) in q;
}
Step-Inv {s} (wake i p) v = record {
  valid = v.valid;
  fifo = v.fifo;
  no_lost_wakeup = λ j a. v.no_lost_wakeup j (update_asleep s.workers i j polling (λ c. cc) a);
}
Step-Inv {s} (finish i x p) v = record {
  valid = v.valid;
  fifo = v.fifo;
  no_lost_wakeup = λ j a. v.no_lost_wakeup j (update_asleep s.workers i j polling (λ c. cc) a);
}

Reach-Inv : {s : System} → Reach s → Inv s
Reach-Inv begin = Inv-start
Reach-Inv (next r st) = Step-Inv st (Reach-Inv r)

-- In every state that the threads can reach, the items that the queue accepted are those already
-- handed to workers followed by those that it holds, in the order of arrival: none is lost,
-- repeated or reordered between the two, and the queue never holds more than 64.
pub workers_fifo :
    {s : System}
    → Reach s
    → (s.accepted ≡ s.taken ++ contents s.queue) × (length (contents s.queue) ≤ 64)
workers_fifo {s} r =
    let v = Reach-Inv r in
    (v.fifo, omega (arith, length-window s.queue.item s.queue.idx s.queue.cnt))

-- No wake-up is lost: if a worker sleeps on the condition while the queue holds an item, then the
-- reader has yet to make its broadcast, and after that broadcast no worker sleeps.
pub no_lost_wakeup :
    {s : System}
    → Reach s
    → (i : ℕ) → s.workers i ≡ asleep
    → contents s.queue ≢ []
    → (s.reader ≡ broadcasting)
      × ((t : System) × Step s t × (t.queue ≡ s.queue) × ((j : ℕ) → t.workers j ≢ asleep))
no_lost_wakeup {s} r i a held =
    let b = is_broadcasting s.reader (λ e. held ((Reach-Inv r).no_lost_wakeup i a e)) in
    (b, (_, broadcast b, refl, λ j. woken-ne-asleep (s.workers j)))
  where
    is_broadcasting : (p : Reader) → p ≢ reading → p ≡ broadcasting
    is_broadcasting reading n = absurd (n refl)
    is_broadcasting broadcasting n = refl
