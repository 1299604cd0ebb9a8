-- ===== src/Semaphores.antt =====
-- ALSP/posix_nameless_sem.c and ALSP/posix_named_sem_cnt.c: a parent that takes a unit of a semaphore for each
-- of thirty children, which give it back when they are done. In the first the children are threads, and the
-- one with index 11 returns without giving its unit back; in the second they are processes, which all do.
pub mod Units
mod Tests
use temp.Base.{ℕ, suc, ◌+◌, ◌≡◌, ◌≢◌, ◌<◌, Bool, true, false}
use temp.Mutexes.{put}

-- A child that is not yet made, one that runs, one that has given its unit back, and one that has ended
-- without that.
pub data Child : Type 0 where
  absent alive posted quit : Child

-- The semaphore, whether the parent is between `sem_wait` and the making of a child, its index `i`, and
-- the children.
pub record Family : Type 0 where
  pub sem_value : ℕ
  pub holds : Bool
  pub i : ℕ
  pub child : ℕ → Child

-- MAX_CHILD_THREAD and `max_child`
abbrev pub max_child : ℕ
max_child = 30

-- The index of the thread that returns at once, and, for processes, of none.
abbrev pub quitting_thread : ℕ
quitting_thread = 11

abbrev pub no_process : ℕ
no_process = 30

abbrev pub first_state : ℕ → Family
first_state n_count = record { sem_value = n_count; holds = false; i = 0; child = λ _. absent }

-- A step of the parent or of a child, where the child `idx` ends without `sem_post`.
pub data SemStep (idx : ℕ) (s : Family) : Family → Type 0 where
  takes :
      (v : ℕ)
      → s.i < max_child
      → s.holds ≡ false
      → s.sem_value ≡ suc v
      → SemStep idx s (record s { sem_value = v; holds = true })
  makes :
      s.i < max_child
      → s.holds ≡ true
      → SemStep idx s (record s { holds = false; i = suc s.i; child = put s.child s.i alive })
  posts :
      (j : ℕ)
      → j < max_child
      → j ≢ idx
      → s.child j ≡ alive
      → SemStep idx s (record s { sem_value = suc s.sem_value; child = put s.child j posted })
  quits :
      idx < max_child
      → s.child idx ≡ alive
      → SemStep idx s (record s { child = put s.child idx quit })

-- The runs, from a semaphore of `n_count` units.
pub data SemReach (idx n_count : ℕ) : Family → Type 0 where
  sem_begin : SemReach idx n_count (first_state n_count)
  sem_next : {s t : Family} → SemReach idx n_count s → SemStep idx s t → SemReach idx n_count t
