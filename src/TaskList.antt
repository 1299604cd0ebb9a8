-- ===== src/TaskList.antt =====
-- ALSP/OpenMP/omp_task_linkedlist.c: a linked list over a heap, and the tasks made on a walk along it. The
-- address that the k-th `calloc` returns is given by `block`; like the program, the model takes every
-- allocation to succeed. The tasks only print, so that the order in which they run is left open.
pub mod Walk
mod Tests
use temp.Base.{ℕ, zero, suc, ◌+◌, Bool, Option, none, some, List, [], ◌∷◌, ltb, ◌==◌, if◌then◌else◌}

-- `struct lnklist`
pub record Lnklist : Type 0 where
  pub num : ℕ
  pub next : Option ℕ

-- The memory, the two pointers, and the number of allocations so far.
pub record Memory : Type 0 where
  pub at : ℕ → Lnklist
  pub ll_head : ℕ
  pub ll_tail : ℕ
  pub allocated : ℕ

abbrev pub zeroed : Lnklist
zeroed = record { num = 0; next = none }

-- A store to the block at `p`.
abbrev pub put : (ℕ → Lnklist) → ℕ → Lnklist → ℕ → Lnklist
put at p x q = if q == p then x else at q

-- `calloc`
pub calloc : (ℕ → ℕ) → Memory → ℕ × Memory
calloc block m = (
  block m.allocated,
  record m { at = put m.at (block m.allocated) zeroed; allocated = m.allocated + 1 },
)

-- `append_lnklist`
pub append_lnklist : Memory → ℕ → Memory
append_lnklist m list =
    let linked = put m.at m.ll_tail (record (m.at m.ll_tail) { next = some list }) in
    record m { at = put linked list (record (linked list) { next = none }); ll_tail = list }

-- One pass of the loop of `make_lnklist`.
pub make_one : (ℕ → ℕ) → Memory → ℕ → Memory
make_one block m i =
    let (list, m₁) = calloc block m in
    append_lnklist (record m₁ { at = put m₁.at list (record (m₁.at list) { num = i }) }) list

-- The loop, for the `n` passes from `i` on.
unfoldable pub make_loop : (ℕ → ℕ) → Memory → ℕ → ℕ → Memory
make_loop block m i zero = m
make_loop block m i (suc n) = make_loop block (make_one block m i) (i + 1) n

-- LIST_ITERATION
abbrev pub list_iteration : ℕ
list_iteration = 20

-- The start of `make_lnklist`: the first block is linked to itself.
pub first_one : (ℕ → ℕ) → Memory → Memory
first_one block m =
    let (head, m₁) = calloc block m in
    record m₁ {
      at = put m₁.at head (record (m₁.at head) { next = some head });
      ll_head = head;
      ll_tail = head;
    }

-- `make_lnklist`, with the number of its passes.
pub make_lnklist : (ℕ → ℕ) → ℕ → Memory → Memory
make_lnklist block n m = make_loop block (first_one block m) 0 n

-- A task: its `i`, the block that it has, and whether it may be deferred (`if (i > 5)`).
pub record Task : Type 0 where
  pub i : ℕ
  pub list : ℕ
  pub deferred : Bool

-- The loop of `walk_lnklist`, in at most `n` passes: the tasks in the order in which they are made, and
-- `none` when the passes are used up.
unfoldable pub walk_loop : ℕ → (ℕ → Lnklist) → ℕ → Option ℕ → Option (List Task)
walk_loop n at i none = some []
walk_loop zero at i (some list) = none
walk_loop (suc n) at i (some list) = elim (walk_loop n at (i + 1) (at list).next) [
  | none ↦ none
  | some tasks ↦ some (record { i = i; list = list; deferred = ltb 5 i } ∷ tasks)
]

pub walk_lnklist : ℕ → Memory → Option (List Task)
walk_lnklist n m = walk_loop n m.at 0 (some m.ll_head)

-- `main`
pub main : ℕ → (ℕ → ℕ) → Memory → Option (List Task)
main n block m = walk_lnklist n (make_lnklist block list_iteration m)
