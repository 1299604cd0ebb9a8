-- ===== src/WorkQueue/Tests.antt =====
-- The work queue of ALSP/cond_var.c and ALSP/cond_var_rts.c on concrete inputs.
use native.Mathlib.Decide.{ℕ_discrete}
use temp.Base.{
  ◌≡◌, ◌≢◌, refl, [], ◌∷◌, ◌++◌, ◌^◌, ◌≤◌, ◌-◌, arith, some, replicate, length, ℕ, count, ◌+◌,
}
use temp.WorkQueue.{Workqueue, from_start, push_loop, push_item, pop_item, job_seconds}
use temp.WorkQueue.Window.{IsValid, contents}
use temp.WorkQueue.Refine.{queue_refines, Popped}
use temp.WorkQueue.Threads.{
  start, Reach, begin, next, feed, wait, workers_fifo, no_lost_wakeup, System, asleep, after_push,
  broadcasting, Step, update,
}
use temp.WorkQueue.Rts.{
  Process, launch, rts_push, rts_pop, rts_notify, put_thread, busy, notifying, RtsReach, rts_begin,
  rts_next, rts_feed, rts_take, job_done, queue_signal,
}
use temp.WorkQueue.Notices.{without_signals, rts_refines, notices_lem, due}

-- One place free, and the index behind the end of the array.
abbrev near_full : Workqueue
near_full = record { item = replicate 64 7; idx = 64; cnt = 63 }

near_full-IsValid : IsValid near_full
near_full-IsValid = omega arith

queue_refines_example :
    (((push_item near_full (1 ∷ 2 ∷ [])).0 ≡ 1)
      × (contents (push_item near_full (1 ∷ 2 ∷ [])).1 ≡ contents near_full ++ (1 ∷ []))
      × IsValid (push_item near_full (1 ∷ 2 ∷ [])).1)
    × Popped near_full (pop_item near_full)
queue_refines_example = queue_refines near_full (1 ∷ 2 ∷ []) near_full-IsValid

pop_near_full : pop_item near_full ≡ some (7, record near_full { idx = 1; cnt = 62 })
unfolding pop_item from_start
pop_near_full = refl

-- 'a' sleeps three seconds; the byte 0x84 is -124 as a `char`, and its sleep has wrapped.
sleeps : (job_seconds b'a' ≡ 3) × (job_seconds 0x84 ≡ 2 ^ 32 - 3)
unfolding job_seconds
sleeps = (refl, refl)

-- A worker finds the queue empty and sleeps; then the reader pushes one item.
abbrev one_asleep : System
one_asleep = record start { workers = update start.workers 0 asleep }

abbrev fed : System
fed = after_push one_asleep (5 ∷ [])

fed-Reach : Reach fed
unfolding pop_item
fed-Reach = next (next begin (wait 0 refl refl)) (feed (5 ∷ []) (λ e. cc) (omega arith) refl)

workers_fifo_example :
    (fed.accepted ≡ fed.taken ++ contents fed.queue) × (length (contents fed.queue) ≤ 64)
workers_fifo_example = workers_fifo fed-Reach

fed_holds : contents fed.queue ≢ []
unfolding push_item push_loop from_start
fed_holds e = cc

fed_asleep : fed.workers 0 ≡ asleep
unfolding ℕ_discrete
fed_asleep = refl

no_lost_wakeup_example :
    (fed.reader ≡ broadcasting)
    × ((t : System) × Step fed t × (t.queue ≡ fed.queue) × ((j : ℕ) → t.workers j ≢ asleep))
no_lost_wakeup_example = no_lost_wakeup fed-Reach 0 fed_asleep fed_holds

-- The thread 2 has done the job of one item, and its notification is pending; thread 1 sleeps.
abbrev told : Process
told =
    let q = (push_item launch.queue (5 ∷ [])).1 in
    rts_notify
      (record (rts_pop (rts_push launch (5 ∷ [])) 2 5 (record q { idx = 1; cnt = 0 })) {
        threads = put_thread (put_thread launch.threads 2 (busy 5)) 2 (notifying 5);
      })
      2

told-RtsReach : RtsReach told
unfolding pop_item push_item push_loop from_start ℕ_discrete
told-RtsReach =
    let fed = rts_next rts_begin refl (rts_feed (5 ∷ []) (λ e. cc) (omega arith) refl) in
    let taken = rts_next fed refl (rts_take 2 5 _ refl refl) in
    let done = rts_next taken refl (job_done 2 5 refl) in rts_next done refl (queue_signal 2 5 refl)

rts_refines_example : Reach (without_signals told)
rts_refines_example = rts_refines told-RtsReach

notices_lem_example :
    count 2 told.takers ≡ count 2 told.notices + (count 2 told.pending + due (told.threads 2))
notices_lem_example = notices_lem told-RtsReach 2
