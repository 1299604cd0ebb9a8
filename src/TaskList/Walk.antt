-- ===== src/TaskList/Walk.antt =====
-- The list that `make_lnklist` links in the heap, and the walk along it.
use native.Mathlib.Decide.{ℕ_discrete}
use temp.Base.{
  ℕ, zero, suc, ◌+◌, ◌≡◌, ◌≢◌, ◌≤◌, ◌<◌, refl, ◌∙◌, ap, true, false, none, some, List, [], ◌∷◌,
  arith, ltb, ◌==◌, zero,
}
use temp.TaskList.{
  Memory, calloc, append_lnklist, make_one, make_loop, first_one, make_lnklist, Task, walk_loop,
  walk_lnklist,
}

same : (p : ℕ) → (p == p) ≡ true
same p = ground arith

other : (p q : ℕ) → p ≢ q → (p == q) ≡ false
other p q n = ground arith

-- The allocations give different blocks.
abbrev pub IsFresh : (ℕ → ℕ) → Type 0
IsFresh block = (j k : ℕ) → j ≢ k → block j ≢ block k

-- The list after `k` passes: its blocks are the first `k + 1`, in the order of their allocation.
record Linked (block : ℕ → ℕ) (k : ℕ) (m : Memory) : Type 0 where
  head : m.ll_head ≡ block 0
  tail : m.ll_tail ≡ block k
  used : m.allocated ≡ suc k
  links : (j : ℕ) → j < k → (m.at (block j)).next ≡ some (block (suc j))
  numbers : (j : ℕ) → j < k → (m.at (block (suc j))).num ≡ j
  first : (m.at (block 0)).num ≡ 0
  ended : 1 ≤ k → (m.at (block k)).next ≡ none

-- What one pass does to the memory.
make_one_new :
    (block : ℕ → ℕ) (k i : ℕ) (m : Memory)
    → IsFresh block
    → Linked block k m
    → (make_one block m i).at (block (suc k)) ≡ record { num = i; next = none }
unfolding make_one calloc append_lnklist
make_one_new block k i m fresh v =
    let at : m.allocated ≡ suc k = v.used in
    let apart = other (block (suc k)) (block k) (fresh (suc k) k (λ e. absurd (omega arith))) in
    rw (at, v.tail, same (block (suc k)), apart) refl

make_one_last :
    (block : ℕ → ℕ) (k i : ℕ) (m : Memory)
    → IsFresh block
    → Linked block k m
    → (make_one block m i).at (block k) ≡ record (m.at (block k)) { next = some (block (suc k)) }
unfolding make_one calloc append_lnklist
make_one_last block k i m fresh v =
    let at : m.allocated ≡ suc k = v.used in
    let apart = other (block k) (block (suc k)) (fresh k (suc k) (λ e. absurd (omega arith))) in
    rw (at, v.tail, same (block k), apart) refl

make_one_old :
    (block : ℕ → ℕ) (j k i : ℕ) (m : Memory)
    → IsFresh block
    → Linked block k m
    → j < k
    → (make_one block m i).at (block j) ≡ m.at (block j)
unfolding make_one calloc append_lnklist
make_one_old block j k i m fresh v lt =
    let at : m.allocated ≡ suc k = v.used in
    let apart_new = other (block j) (block (suc k)) (fresh j (suc k) (λ e. absurd (omega arith))) in
    let apart_last = other (block j) (block k) (fresh j k (λ e. absurd (omega arith))) in
    rw (at, v.tail, apart_new, apart_last) refl

number_kept :
    (block : ℕ → ℕ) (j k i : ℕ) (m : Memory)
    → IsFresh block
    → Linked block k m
    → j ≤ k
    → ((make_one block m i).at (block j)).num ≡ (m.at (block j)).num
number_kept block j k i m fresh v le = elim (ℕ_discrete j k) [
  | yes e ↦ rw e (ap (λ x. x.num) (make_one_last block k i m fresh v))
  | no n ↦ ap (λ x. x.num) (make_one_old block j k i m fresh v (omega arith))
]

pointers_moved :
    (block : ℕ → ℕ) (k i : ℕ) (m : Memory)
    → Linked block k m
    → ((make_one block m i).ll_head ≡ block 0)
      × ((make_one block m i).ll_tail ≡ block (suc k))
      × ((make_one block m i).allocated ≡ suc (suc k))
unfolding make_one calloc append_lnklist
pointers_moved block k i m v = (v.head, ap block v.used, omega (arith, v.used))

make_one-Linked :
    (block : ℕ → ℕ) (k : ℕ) (m : Memory)
    → IsFresh block
    → Linked block k m
    → Linked block (suc k) (make_one block m k)
make_one-Linked block k m fresh v = record {
  head = (pointers_moved block k k m v).0;
  tail = (pointers_moved block k k m v).1;
  used = (pointers_moved block k k m v).2;
  links = λ j lt. elim (ℕ_discrete j k) [
    | yes e ↦ rw e (ap (λ x. x.next) (make_one_last block k k m fresh v))
    | no n ↦
        ap (λ x. x.next) (make_one_old block j k k m fresh v (omega arith))
        ∙ v.links j (omega arith)
  ];
  numbers = λ j lt. elim (ℕ_discrete j k) [
    | yes e ↦ rw e (ap (λ x. x.num) (make_one_new block k k m fresh v))
    | no n ↦ number_kept block (suc j) k k m fresh v (omega arith) ∙ v.numbers j (omega arith)
  ];
  first = number_kept block 0 k k m fresh v (omega arith) ∙ v.first;
  ended = λ p. ap (λ x. x.next) (make_one_new block k k m fresh v);
}

make_loop-Linked :
    (block : ℕ → ℕ) (n k : ℕ) (m : Memory)
    → IsFresh block
    → Linked block k m
    → Linked block (k + n) (make_loop block m k n)
unfolding make_loop
make_loop-Linked block zero k m fresh v = let e : k + 0 ≡ k = omega arith in rw e v
make_loop-Linked block (suc n) k m fresh v =
    let sum : k + suc n ≡ suc k + n = omega arith in
    let up : k + 1 ≡ suc k = omega arith in
    rw (sum, up)
      (make_loop-Linked block n (suc k) (make_one block m k) fresh
        (make_one-Linked block k m fresh v))

first_one-Linked :
    (block : ℕ → ℕ) (m : Memory) → m.allocated ≡ 0 → Linked block 0 (first_one block m)
unfolding first_one calloc
first_one-Linked block m none_yet = record {
  head = ap block none_yet;
  tail = ap block none_yet;
  used = omega (arith, none_yet);
  links = λ j lt. absurd (omega arith);
  numbers = λ j lt. absurd (omega arith);
  first = rw (none_yet, same (block 0)) refl;
  ended = λ p. absurd (omega arith);
}

make_lnklist-Linked :
    (block : ℕ → ℕ) (n : ℕ) (m : Memory)
    → IsFresh block
    → m.allocated ≡ 0
    → Linked block n (make_lnklist block n m)
unfolding make_lnklist
make_lnklist-Linked block n m fresh none_yet =
    let e : 0 + n ≡ n = omega arith in
    rw e at
      (make_loop-Linked block n 0 (first_one block m) fresh (first_one-Linked block m none_yet))

-- The tasks for the `d + 1` blocks from the j-th on.
abbrev pub tasks_from : (ℕ → ℕ) → ℕ → ℕ → List Task
tasks_from block j zero = record { i = j; list = block j; deferred = ltb 5 j } ∷ []
tasks_from block j (suc d) =
    record { i = j; list = block j; deferred = ltb 5 j } ∷ tasks_from block (j + 1) d

walk_loop_lem :
    (block : ℕ → ℕ) (d j k : ℕ) (m : Memory)
    → Linked block k m
    → 1 ≤ k
    → k ≡ j + d
    → walk_loop (suc d) m.at j (some (block j)) ≡ some (tasks_from block j d)
unfolding walk_loop
walk_loop_lem block zero j k m v many e =
    let last : j ≡ k = omega arith in
    let end : (m.at (block j)).next ≡ none = rw last (v.ended many) in rw end refl
walk_loop_lem block (suc d) j k m v many e =
    let link : (m.at (block j)).next ≡ some (block (j + 1)) =
      v.links j (omega arith) ∙ ap (λ q. some (block q)) {y = j + 1} (omega arith) in
    rw (link, walk_loop_lem block d (j + 1) k m v many (omega arith)) refl

-- `make_lnklist` with `n` passes, one at least, when the allocations give different blocks, and the walk
-- along its list: the walk comes to its end in `n + 1` passes, and makes one task for each block, in the
-- order of their allocation, of which only those behind the sixth may be deferred; the first block holds
-- 0, and each next one the number of the pass that appended it.
pub walk_lnklist_lem :
    (block : ℕ → ℕ) (n : ℕ) (m : Memory)
    → IsFresh block
    → m.allocated ≡ 0
    → 1 ≤ n
    → (walk_lnklist (suc n) (make_lnklist block n m) ≡ some (tasks_from block 0 n))
      × (((make_lnklist block n m).at (block 0)).num ≡ 0)
      × ((j : ℕ) → j < n → ((make_lnklist block n m).at (block (suc j))).num ≡ j)
unfolding walk_lnklist
walk_lnklist_lem block n m fresh none_yet many =
    let v = make_lnklist-Linked block n m fresh none_yet in
    (
      rw v.head (walk_loop_lem block n 0 n (make_lnklist block n m) v many (omega arith)),
      v.first,
      v.numbers,
    )
