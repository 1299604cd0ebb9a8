-- ===== src/WorkQueue/Refine.antt =====
-- The queue of ALSP/cond_var.c against a bounded first-in first-out queue.
use temp.Base.{
  ℕ, zero, suc, ◌+◌, ◌-◌, ◌%◌, ◌^◌, ◌≤◌, ◌<◌, ◌≡◌, refl, sym, ◌∙◌, ap, ap₂, List, [], ◌∷◌, ◌++◌,
  append-nil, append_assoc, Option, none, some, min, arith, ◌==◌, ltb, Bool-cases, inl, inr, length,
  length-set, set, get_or, take,
}
use temp.WorkQueue.{Workqueue, from_start, push_loop, push_item, pop_item, job_seconds}
use temp.WorkQueue.Window.{window, contents, IsValid, window_round, window-set, window_head}

-- The state after one item is stored.
abbrev stored : Workqueue → ℕ → ℕ → Workqueue
stored q slot x = record q { item = set q.item slot x; cnt = q.cnt + 1 }

stored-IsValid : (q : Workqueue) (slot x : ℕ) → IsValid q → q.cnt < 64 → IsValid (stored q slot x)
stored-IsValid q slot x v h = omega (arith, length-set q.item slot x)

contents-stored :
    (q : Workqueue) (slot x : ℕ)
    → IsValid q
    → q.cnt < 64
    → slot ≡ (q.idx + q.cnt) % 64
    → contents (stored q slot x) ≡ contents q ++ (x ∷ [])
contents-stored q slot x v h e =
    let step : q.cnt + 1 ≡ suc q.cnt = omega arith in
    ap (window (set q.item slot x) q.idx) step ∙ window-set q.item x q.cnt q.idx slot v.storage h e

take-cons : (n x : ℕ) (xs : List ℕ) → n < 64 → take (64 - n) (x ∷ xs) ≡ x ∷ take (64 - (n + 1)) xs
take-cons n x xs h =
    let e : 64 - n ≡ suc (64 - (n + 1)) = omega arith in ap (λ k. take k (x ∷ xs)) e

-- What the loop of `push_item` promises of its result `r`, from the state `q` at count `i`.
record Pushed (q : Workqueue) (i : ℕ) (xs : List ℕ) (r : ℕ × Workqueue) : Type 0 where
  number : r.0 ≡ i + min (length xs) (64 - q.cnt)
  holds : contents r.1 ≡ contents q ++ take (64 - q.cnt) xs
  valid : IsValid r.1

push_full :
    (q : Workqueue) (i x : ℕ) (xs : List ℕ) → IsValid q → q.cnt ≡ 64 → Pushed q i (x ∷ xs) (i, q)
push_full q i x xs v e = record {
  number = omega arith;
  holds =
      let none_left : 64 - q.cnt ≡ 0 = omega arith in
      sym (rw (none_left) (append-nil (contents q)));
  valid = v;
}

take-nil : (n : ℕ) → take {A = ℕ} n [] ≡ []
take-nil zero = refl
take-nil (suc n) = refl

from_start_lem : (j : ℕ) → j ≤ 64 → (from_start j ≡ j % 64)
unfolding from_start
from_start_lem j h = ground arith

push_step :
    (q : Workqueue) (i slot x : ℕ) (xs : List ℕ) {r : ℕ × Workqueue}
    → IsValid q
    → q.cnt < 64
    → slot ≡ (q.idx + q.cnt) % 64
    → Pushed (stored q slot x) (i + 1) xs r
    → Pushed q i (x ∷ xs) r
push_step q i slot x xs v h e p = record {
  number = omega (arith, p.number);
  holds = rw (take-cons q.cnt x xs h) (
      p.holds
      ∙ ap (λ c. c ++ take (64 - (q.cnt + 1)) xs) (contents-stored q slot x v h e)
      ∙ append_assoc (contents q) (x ∷ []) (take (64 - (q.cnt + 1)) xs));
  valid = p.valid;
}

push_loop_lem :
    (q : Workqueue) (i j : ℕ) (xs : List ℕ)
    → IsValid q
    → j ≤ 64
    → j % 64 ≡ (q.idx + q.cnt) % 64
    → Pushed q i xs (push_loop q i j xs)
unfolding push_loop
push_loop_lem q i j [] v hj e = record {
  number = omega arith;
  holds = rw take-nil (sym (append-nil (contents q)));
  valid = v;
}
push_loop_lem q i j (x ∷ xs) v hj e = elim (Bool-cases (q.cnt == 64)) [
  | inl full ↦ rw full (push_full q i x xs v (ground arith))
  | inr room ↦
      let has_room : q.cnt < 64 = ground arith in
      let at : from_start j ≡ (q.idx + q.cnt) % 64 = omega (arith, from_start_lem j hj) in
      rw room (
        push_step q i (from_start j) x xs v has_room at (
          push_loop_lem (stored q (from_start j) x) (i + 1) (from_start j + 1) xs
            (stored-IsValid q (from_start j) x v has_room) (omega arith) (omega arith)))
]

-- `push_item` on a valid queue takes items from the front of its argument for as long as one of the
-- 64 places is free and returns how many it took; the queue then holds what it held before followed
-- by exactly these items in order, and stays valid (so no access of the array was out of bounds).
pub push_item_refines :
    (q : Workqueue) (xs : List ℕ)
    → IsValid q
    → ((push_item q xs).0 ≡ min (length xs) (64 - q.cnt))
      × (contents (push_item q xs).1 ≡ contents q ++ take (64 - q.cnt) xs)
      × IsValid (push_item q xs).1
unfolding push_item
push_item_refines q xs v =
    let p = push_loop_lem q 0 ((q.idx + q.cnt) % 64) xs v (omega arith) (omega arith) in
    (omega (arith, p.number), p.holds, p.valid)

-- What `pop_item` promises of its result.
abbrev pub Popped : Workqueue → Option (ℕ × Workqueue) → Type 0
Popped q none = contents q ≡ []
Popped q (some (x, q')) = (contents q ≡ x ∷ contents q') × IsValid q'

-- `pop_item` on a valid queue waits exactly when the queue holds nothing; otherwise it hands out
-- the oldest item, the queue keeps the others in order, and it stays valid.
pub pop_item_refines : (q : Workqueue) → IsValid q → Popped q (pop_item q)
unfolding pop_item
pop_item_refines q v = elim (Bool-cases (ltb 0 q.cnt)) [
  | inl more ↦ rw more (
      let at = from_start_lem q.idx v.idx_in in
      let round : window q.item (q.idx + 1) (q.cnt - 1)
          ≡ window q.item (from_start q.idx + 1) (q.cnt - 1) =
        window_round q.item (q.idx + 1) (from_start q.idx + 1) (q.cnt - 1) (omega arith) in
      (
        window_head q.item q.idx q.cnt (ground arith)
            ∙ ap₂ (λ m r. get_or q.item m 0 ∷ r) (sym at) round,
        omega arith,
      ))
  | inr empty ↦ rw empty (ap (window q.item q.idx) {y = 0} (ground arith))
]

-- The queue against a bounded first-in first-out queue, from any valid state. `push_item` takes items from
-- the front of its argument for as long as one of the 64 places is free, returns how many it took, and
-- puts exactly these behind what the queue held, in order. `pop_item` waits exactly when the queue holds
-- nothing, and else hands out the oldest item and keeps the others in order. Both leave the queue valid.
pub queue_refines :
    (q : Workqueue) (xs : List ℕ)
    → IsValid q
    → (((push_item q xs).0 ≡ min (length xs) (64 - q.cnt))
        × (contents (push_item q xs).1 ≡ contents q ++ take (64 - q.cnt) xs)
        × IsValid (push_item q xs).1)
      × Popped q (pop_item q)
queue_refines q xs v = (push_item_refines q xs v, pop_item_refines q v)

-- A worker sleeps one to five seconds on a byte of seven bits.
pub job_seconds_bounds : (byte : ℕ) → byte < 128 → (1 ≤ job_seconds byte) × (job_seconds byte ≤ 5)
unfolding job_seconds
job_seconds_bounds byte small = ground arith

-- A byte from 128 on reaches `sleep` as a negative item: unless its negation is a multiple of five or
-- one more than that, the sum wraps and the worker sleeps for more than four thousand million seconds.
pub job_seconds_wraps :
    (byte : ℕ) → byte < 256 → 128 ≤ byte → 2 ≤ (256 - byte) % 5 → 2 ^ 32 - 3 ≤ job_seconds byte
unfolding job_seconds
job_seconds_wraps byte h large odd = ground arith
