-- ===== src/WorkQueue.antt =====
-- ALSP/cond_var.c: the bounded work queue that one reader thread fills and the workers empty.
-- ALSP/cond_var_rts.c has the same queue. An item is a byte read from the FIFO.
pub mod Window
pub mod Refine
pub mod Threads
pub mod Rts
pub mod Notices
pub mod Main
mod Tests
use temp.Base.{
  ℕ, suc, ◌+◌, ◌-◌, ◌%◌, ◌^◌, Bool, Option, none, some, List, [], ◌∷◌, ltb, ◌==◌, if◌then◌else◌,
  set, get_or, replicate,
}

-- `MAX_ITEMS`
abbrev pub max_items : ℕ
max_items = 64

-- `struct workqueue` without its mutex and condition, which `Threads` models.
pub record Workqueue : Type 0 where
  pub item : List ℕ
  pub idx : ℕ
  pub cnt : ℕ

-- `calloc` in `main`
abbrev pub new_queue : Workqueue
new_queue = record { item = replicate 64 0; idx = 0; cnt = 0 }

-- `if (j == MAX_ITEMS) j = 0`, of both functions.
pub from_start : ℕ → ℕ
from_start j = if j == max_items then 0 else j

-- The `for` loop of `push_item`, with `i` and `j`, over the items that are left.
push_loop : Workqueue → ℕ → ℕ → List ℕ → ℕ × Workqueue
push_loop q i j [] = (i, q)
push_loop q i j (x ∷ xs) =
    let slot = from_start j in
    let rest =
      push_loop (record q { item = set q.item slot x; cnt = q.cnt + 1 }) (i + 1) (slot + 1) xs in
    if q.cnt == max_items then (i, q) else rest

-- `push_item`: the number of items taken, and the queue.
pub push_item : Workqueue → List ℕ → ℕ × Workqueue
push_item q items = push_loop q 0 ((q.idx + q.cnt) % max_items) items

-- One pass of the loop of `pop_item`: `none` is the branch that waits on the condition.
pub pop_item : Workqueue → Option (ℕ × Workqueue)
pop_item q =
    let at = from_start q.idx in
    if ltb 0 q.cnt
    then some (get_or q.item at 0, record q { idx = at + 1; cnt = q.cnt - 1 })
    else none

-- The argument of `sleep` in `process_job`. The item was a `char`, which is signed: a byte from 128
-- on stands for a negative number, C's `%` keeps its sign, and `sleep` takes an `unsigned int`.
pub job_seconds : ℕ → ℕ
job_seconds byte = if ltb byte 128 then byte % 5 + 1 else (2 ^ 32 + 1 - (256 - byte) % 5) % 2 ^ 32
