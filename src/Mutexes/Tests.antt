-- ===== src/Mutexes/Tests.antt =====
-- The programs that try a mutex, on some states that their threads reach.
use native.Mathlib.Decide.{ℕ_discrete}
use temp.Base.{ℕ, ◌≡◌, ◌≢◌, ◌≤◌, refl, some, true, arith}
use temp.Mutexes.{put}
use temp.Mutexes.Cleanup
use temp.Mutexes.Robust
use temp.Mutexes.Counter

-- Thread 2 has locked the mutex and pushed its handler.
abbrev guarded_state : Cleanup.Threads
guarded_state =
    Cleanup.move
      (record (Cleanup.move (Cleanup.move Cleanup.begin_threads 2 Cleanup.locking) 2
        Cleanup.locked) { owner = some 2 })
      2 Cleanup.guarded

cleanup_lem_example :
    ((i j : ℕ)
      → Cleanup.IsInside (guarded_state.phase i)
      → Cleanup.IsInside (guarded_state.phase j)
      → i ≡ j)
    × ((i : ℕ) → guarded_state.owner ≡ some i → Cleanup.IsInside (guarded_state.phase i))
    × Cleanup.Frees guarded_state
unfolding ℕ_discrete
cleanup_lem_example = Cleanup.cleanup_lem (
    Cleanup.cleanup_next
      (Cleanup.cleanup_next (Cleanup.cleanup_next Cleanup.cleanup_begin (Cleanup.wakes 2 refl))
        (Cleanup.locks 2 refl refl))
      (Cleanup.pushes 2 refl))

-- Thread 1 has had the mutex; thread 2 was cancelled as its holder; and thread 0 has just been told so.
abbrev cancelled_holder : Robust.Threads
cancelled_holder =
    let one =
      Robust.move (Robust.move Robust.begin_threads 1 Robust.locking Robust.free) 1 Robust.holding
        (Robust.held 1) in
    let two =
      Robust.move (Robust.move one 1 Robust.unlocked Robust.free) 2 Robust.locking Robust.free in
    let asked : Robust.Threads =
      record (Robust.move (Robust.move two 2 Robust.holding (Robust.held 2)) 1 Robust.finished
        (Robust.held 2)) { asked = true } in
    Robust.move asked 2 Robust.cancelled Robust.orphaned

abbrev told_state : Robust.Threads
told_state =
    Robust.move (Robust.move cancelled_holder 0 Robust.locking Robust.orphaned) 0 Robust.owner_dead
      (Robust.inconsistent 0)

told_state-Reach : Robust.RobustReach told_state
unfolding ℕ_discrete
told_state-Reach =
    Robust.robust_next
      (Robust.robust_next
        (Robust.robust_next
          (Robust.robust_next
            (Robust.robust_next
              (Robust.robust_next
                (Robust.robust_next
                  (Robust.robust_next (Robust.robust_next Robust.robust_begin (Robust.wakes 1 refl))
                    (Robust.locks 1 refl refl))
                  (Robust.unlocks 1 refl))
                (Robust.wakes 2 refl))
              (Robust.locks 2 refl refl))
            (Robust.cancels refl))
          (Robust.dies refl tt))
        (Robust.wakes 0 refl))
      (Robust.finds_dead 0 refl refl)

robust_lem_example :
    (told_state.mutex ≢ Robust.not_recoverable)
    × ((i : ℕ) → told_state.phase i ≢ Robust.without_mutex)
    × ((i j : ℕ)
        → Robust.IsInside (told_state.phase i)
        → Robust.IsInside (told_state.phase j)
        → i ≡ j)
    × ((i : ℕ) → told_state.mutex ≡ Robust.held i → told_state.phase i ≡ Robust.holding)
    × ((i : ℕ) → told_state.mutex ≡ Robust.inconsistent i → told_state.phase i ≡ Robust.owner_dead)
robust_lem_example = Robust.robust_lem told_state-Reach

-- Thread 1 has made its first increment.
abbrev counted_state : Counter.Process
counted_state = record {
  phase =
      put (put (put Counter.launch.phase 1 (Counter.locked 4)) 1 (Counter.loaded 4 0)) 1
        (Counter.stored 4);
  owner = some 1;
  number = 1;
}

counter_lem_example :
    (counted_state.number ≤ 10)
    × (counted_state.phase 0 ≡ Counter.ready 0
        → counted_state.phase 1 ≡ Counter.ready 0
        → counted_state.number ≡ 10)
unfolding ℕ_discrete
counter_lem_example = Counter.counter_lem (
    Counter.count_next
      (Counter.count_next
        (Counter.count_next Counter.count_begin (Counter.locks 1 4 (omega arith) refl refl))
        (Counter.loads 1 4 (omega arith) refl))
      (Counter.stores 1 4 0 (omega arith) refl))
