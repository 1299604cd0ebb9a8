-- ===== src/TaskList/Tests.antt =====
-- The list of ALSP/OpenMP/omp_task_linkedlist.c in blocks of 16 bytes.
use temp.Base.{ℕ, suc, ◌+◌, ◌*◌, ◌≡◌, ◌<◌, refl, some, arith}
use temp.TaskList.{Memory, zeroed, make_lnklist, walk_lnklist}
use temp.TaskList.Walk.{tasks_from, walk_lnklist_lem}

abbrev heap_block : ℕ → ℕ
heap_block k = 4096 + 16 * k

abbrev no_memory : Memory
no_memory = record { at = λ _. zeroed; ll_head = 0; ll_tail = 0; allocated = 0 }

walk_lnklist_lem_example :
    (walk_lnklist 21 (make_lnklist heap_block 20 no_memory) ≡ some (tasks_from heap_block 0 20))
    × (((make_lnklist heap_block 20 no_memory).at (heap_block 0)).num ≡ 0)
    × ((j : ℕ) → j < 20 → ((make_lnklist heap_block 20 no_memory).at (heap_block (suc j))).num ≡ j)
walk_lnklist_lem_example =
    walk_lnklist_lem heap_block 20 no_memory (λ j k n e. absurd (n (omega arith))) refl
      (omega arith)
