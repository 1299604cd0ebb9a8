-- ===== src/Semaphores/Tests.antt =====
-- A semaphore of two units, with a first child that runs.
use temp.Base.{ℕ, ◌+◌, ◌≡◌, ◌≢◌, ◌≤◌, ◌<◌, refl, false, arith}
use temp.Mutexes.{put}
use temp.Semaphores.{
  alive, Family, SemReach, sem_begin, sem_next, takes, makes, first_state, quitting_thread,
}
use temp.Semaphores.Units.{running_children, nameless_sem_lem}

abbrev two : ℕ
two = 2

abbrev one_child : Family
one_child = record {
  sem_value = 1;
  holds = false;
  i = 1;
  child = put (first_state 2).child 0 alive;
}

one_child_reached : (idx : ℕ) → SemReach idx 2 one_child
one_child_reached idx =
    sem_next (sem_next sem_begin (takes 1 (omega arith) refl refl)) (makes (omega arith) refl)

nameless_sem_lem_example :
    (running_children one_child.child 30 ≤ 2)
    × (11 < one_child.i
        → one_child.holds ≡ false
        → ((j : ℕ) → one_child.child j ≢ alive)
        → one_child.sem_value + 1 ≡ 2)
    × (two ≡ 1 → one_child.i ≤ 12)
nameless_sem_lem_example = nameless_sem_lem 2 (one_child_reached quitting_thread)
