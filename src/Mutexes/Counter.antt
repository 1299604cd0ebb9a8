-- ===== src/Mutexes/Counter.antt =====
-- test/pthread_mutex.c: two threads that count in one variable, five times each, under a mutex. The
-- increment is a load and a store, between which other threads may run.
use native.Mathlib.Decide.{ℕ_discrete}
use temp.Base.{ℕ, zero, suc, ◌+◌, ◌≡◌, ◌≢◌, ◌<◌, ◌≤◌, inl, inr, refl, ap, Option, none, some, arith}
use temp.Mutexes.{put, put_cases}

-- `thread_inc`, by what is left of its loop: before the locking, behind it, with `number` loaded, and with
-- the sum stored.
pub data Phase : Type 0 where
  ready locked stored : ℕ → Phase
  loaded : ℕ → ℕ → Phase

pub record Process : Type 0 where
  pub phase : ℕ → Phase
  pub owner : Option ℕ
  pub number : ℕ

abbrev pub launch : Process
launch = record { phase = λ _. ready 5; owner = none; number = 0 }

-- A step of thread 0 or 1.
pub data CountStep (s : Process) : Process → Type 0 where
  locks :
      (i k : ℕ)
      → i < 2
      → s.phase i ≡ ready (suc k)
      → s.owner ≡ none
      → CountStep s (record s { phase = put s.phase i (locked k); owner = some i })
  loads :
      (i k : ℕ)
      → i < 2
      → s.phase i ≡ locked k
      → CountStep s (record s { phase = put s.phase i (loaded k s.number) })
  stores :
      (i k v : ℕ)
      → i < 2
      → s.phase i ≡ loaded k v
      → CountStep s (record s { phase = put s.phase i (stored k); number = v + 1 })
  unlocks :
      (i k : ℕ)
      → i < 2
      → s.phase i ≡ stored k
      → CountStep s (record s { phase = put s.phase i (ready k); owner = none })

pub data CountReach : Process → Type 0 where
  count_begin : CountReach launch
  count_next : {s t : Process} → CountReach s → CountStep s t → CountReach t

-- The increments that a thread has still to make.
abbrev left : Phase → ℕ
left (ready k) = k
left (locked k) = suc k
left (loaded k v) = suc k
left (stored k) = k

-- What a thread in a phase knows of the mutex and of the variable.
abbrev Knows : Phase → ℕ → Option ℕ → ℕ → Type 0
Knows (ready k) i owner number = Unit
Knows (locked k) i owner number = owner ≡ some i
Knows (loaded k v) i owner number = (owner ≡ some i) × (v ≡ number)
Knows (stored k) i owner number = owner ≡ some i

record IsCounted (s : Process) : Type 0 where
  sum : s.number + (left (s.phase 0) + left (s.phase 1)) ≡ 10
  knows : (i : ℕ) → Knows (s.phase i) i s.owner s.number

left-put :
    (f : ℕ → Phase) (i : ℕ) (p : Phase)
    → i < 2
    → left (put f i p 0) + left (put f i p 1) + left (f i) ≡ left (f 0) + left (f 1) + left p
unfolding ℕ_discrete
left-put f zero p lt = omega arith
left-put f (suc zero) p lt = omega arith
left-put f (suc (suc i)) p lt = absurd (omega arith)

-- A thread that does not hold the mutex knows nothing that may change.
Knows-out :
    (p : Phase) (j : ℕ) (owner owner' : Option ℕ) (number number' : ℕ)
    → (owner ≡ some j → ⊥)
    → Knows p j owner number
    → Knows p j owner' number'
Knows-out (ready k) j o o' n n' out h = tt
Knows-out (locked k) j o o' n n' out h = absurd (out h)
Knows-out (loaded k v) j o o' n n' out h = absurd (out h.0)
Knows-out (stored k) j o o' n n' out h = absurd (out h)

-- One thread goes on; no other one holds the mutex.
one-Knows :
    (s : Process) (i : ℕ) (p : Phase) (owner : Option ℕ) (number : ℕ)
    → ((j : ℕ) → Knows (s.phase j) j s.owner s.number)
    → ((j : ℕ) → i ≢ j → s.owner ≡ some j → ⊥)
    → Knows p i owner number
    → (j : ℕ) → Knows (put s.phase i p j) j owner number
one-Knows s i p owner number all others now j = elim (put_cases s.phase i j p) [
  | inl (e, q) ↦ rw q (rw e at now)
  | inr (n, q) ↦ rw q (Knows-out (s.phase j) j s.owner owner s.number number (others j n) (all j))
]

held_by : {i : ℕ} {o : Option ℕ} → o ≡ some i → (j : ℕ) → i ≢ j → o ≡ some j → ⊥
held_by a j n b = n (cc)

step-IsCounted : {s t : Process} → CountStep s t → IsCounted s → IsCounted t
step-IsCounted {s} (locks i k lt e free) v = record {
  sum = omega (arith, v.sum, left-put s.phase i (locked k) lt, ap left e);
  knows = one-Knows s i (locked k) (some i) s.number v.knows (λ j n b. cc) refl;
}
step-IsCounted {s} (loads i k lt e) v =
    let own : s.owner ≡ some i = rw e at (v.knows i) in
    record {
      sum = omega (arith, v.sum, left-put s.phase i (loaded k s.number) lt, ap left e);
      knows = one-Knows s i (loaded k s.number) s.owner s.number v.knows (held_by own) (own, refl);
    }
step-IsCounted {s} (stores i k w lt e) v =
    let own : (s.owner ≡ some i) × (w ≡ s.number) = rw e at (v.knows i) in
    record {
      sum = omega (arith, v.sum, left-put s.phase i (stored k) lt, ap left e, own.1);
      knows = one-Knows s i (stored k) s.owner (w + 1) v.knows (held_by own.0) own.0;
    }
step-IsCounted {s} (unlocks i k lt e) v =
    let own : s.owner ≡ some i = rw e at (v.knows i) in
    record {
      sum = omega (arith, v.sum, left-put s.phase i (ready k) lt, ap left e);
      knows = one-Knows s i (ready k) none s.number v.knows (held_by own) tt;
    }

reach-IsCounted : {s : Process} → CountReach s → IsCounted s
reach-IsCounted count_begin = record { sum = refl; knows = λ i. tt }
reach-IsCounted (count_next r st) = step-IsCounted st (reach-IsCounted r)

-- However the two threads are interleaved: no increment is lost, so that `number` is 10 when both have
-- ended, and until then it is never more.
pub counter_lem :
    {s : Process}
    → CountReach s
    → (s.number ≤ 10) × (s.phase 0 ≡ ready 0 → s.phase 1 ≡ ready 0 → s.number ≡ 10)
counter_lem {s} r =
    let v = reach-IsCounted r in
    (omega (arith, v.sum), λ a b. omega (arith, v.sum, ap left a, ap left b))
