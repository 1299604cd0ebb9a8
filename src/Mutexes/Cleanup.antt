-- ===== src/Mutexes/Cleanup.antt =====
-- ALSP/cleanup_mutex.c: a thread may be cancelled while it holds the mutex, and has a handler for that.
-- A cancellation acts at the next `sleep` or output of its thread.

use temp.Base.{
  ℕ, ◌≡◌, ◌≢◌, inl, inr, refl, sym, ◌∙◌, ap, Bool, true, false, Option, none, some, Option-cases,
}
use temp.Mutexes.{put, put_cases, put_self}

-- `start_thread`: in its first `sleep`, at `pthread_mutex_lock`, behind it, with the handler pushed, with
-- the handler popped, behind `pthread_mutex_unlock`, and at its end, of its own or by a cancellation.
pub data Phase : Type 0 where
  sleeping locking locked guarded unguarded unlocked finished cancelled : Phase

-- The threads, the owner of the mutex, and whether thread 2 has been asked to end.
pub record Threads : Type 0 where
  pub phase : ℕ → Phase
  pub owner : Option ℕ
  pub asked : Bool

abbrev pub begin_threads : Threads
begin_threads = record { phase = λ _. sleeping; owner = none; asked = false }

abbrev pub move : Threads → ℕ → Phase → Threads
move s i p = record s { phase = put s.phase i p }

-- The threads between `pthread_mutex_lock` and `pthread_mutex_unlock`.
abbrev pub IsInside : Phase → Type 0
IsInside locked = Unit
IsInside guarded = Unit
IsInside unguarded = Unit
IsInside _ = ⊥

pub data CleanupStep (s : Threads) : Threads → Type 0 where
  wakes : (i : ℕ) → s.phase i ≡ sleeping → CleanupStep s (move s i locking)
  locks :
      (i : ℕ)
      → s.phase i ≡ locking
      → s.owner ≡ none
      → CleanupStep s (record (move s i locked) { owner = some i })
  pushes : (i : ℕ) → s.phase i ≡ locked → CleanupStep s (move s i guarded)
  pops : (i : ℕ) → s.phase i ≡ guarded → CleanupStep s (move s i unguarded)
  unlocks :
      (i : ℕ) → s.phase i ≡ unguarded → CleanupStep s (record (move s i unlocked) { owner = none })
  ends : (i : ℕ) → s.phase i ≡ unlocked → i ≢ 1 → CleanupStep s (move s i finished)
  cancels : s.phase 1 ≡ unlocked → CleanupStep s (record (move s 1 finished) { asked = true })
  ends_asleep : s.asked ≡ true → s.phase 2 ≡ sleeping → CleanupStep s (move s 2 cancelled)
  cleans_up :
      s.asked ≡ true
      → s.phase 2 ≡ guarded
      → CleanupStep s (record (move s 2 cancelled) { owner = none })

pub data CleanupReach : Threads → Type 0 where
  cleanup_begin : CleanupReach begin_threads
  cleanup_next : {s t : Threads} → CleanupReach s → CleanupStep s t → CleanupReach t

-- Just the owner is inside.
abbrev OwnerInside : Threads → Type 0
OwnerInside s =
    ((i : ℕ) → s.owner ≡ some i → IsInside (s.phase i))
    × ((i : ℕ) → IsInside (s.phase i) → s.owner ≡ some i)

same_thread : {i j : ℕ} {o : Option ℕ} → o ≡ some i → o ≡ some j → i ≡ j
same_thread a b = cc

no_thread : {i : ℕ} {o : Option ℕ} → o ≡ none → o ≡ some i → ⊥
no_thread a b = cc

module _ (s : Threads) (i : ℕ) (p : Phase) (v : OwnerInside s) where
  -- A thread whose state changes on the same side of the mutex, one that enters, and one that leaves.
  keeps_side :
      (IsInside (s.phase i) → IsInside p)
      → (IsInside p → IsInside (s.phase i))
      → OwnerInside (move s i p)
  keeps_side to from = (
    λ j own. elim (put_cases s.phase i j p) [
      | inl (e, q) ↦ rw q (to (v.0 i (own ∙ ap some (sym e))))
      | inr (n, q) ↦ rw q (v.0 j own)
    ],
    λ j inside. elim (put_cases s.phase i j p) [
      | inl (e, q) ↦ v.1 i (from (rw q at inside)) ∙ ap some e
      | inr (n, q) ↦ v.1 j (rw q at inside)
    ],
  )

  enters : s.owner ≡ none → IsInside p → OwnerInside (record (move s i p) { owner = some i })
  enters free now = (
    λ j own. elim (put_cases s.phase i j p) [
      | inl (e, q) ↦ rw q now
      | inr (n, q) ↦ absurd (n (same_thread refl own))
    ],
    λ j inside. elim (put_cases s.phase i j p) [
      | inl (e, q) ↦ ap some e
      | inr (n, q) ↦ absurd (no_thread free (v.1 j (rw q at inside)))
    ],
  )

  leaves :
      IsInside (s.phase i) → (IsInside p → ⊥) → OwnerInside (record (move s i p) { owner = none })
  leaves was out = (
    λ j own. absurd (no_thread refl own),
    λ j inside. elim (put_cases s.phase i j p) [
      | inl (e, q) ↦ absurd (out (rw q at inside))
      | inr (n, q) ↦ absurd (n (same_thread (v.1 i was) (v.1 j (rw q at inside))))
    ],
  )

step-OwnerInside : {s t : Threads} → CleanupStep s t → OwnerInside s → OwnerInside t
step-OwnerInside {s} (wakes i e) v = keeps_side s i locking v (λ h. rw e at h) (λ h. absurd h)
step-OwnerInside {s} (locks i e free) v = enters s i locked v free tt
step-OwnerInside {s} (pushes i e) v = keeps_side s i guarded v (λ h. tt) (λ h. rw e tt)
step-OwnerInside {s} (pops i e) v = keeps_side s i unguarded v (λ h. tt) (λ h. rw e tt)
step-OwnerInside {s} (unlocks i e) v = leaves s i unlocked v (rw e tt) (λ h. h)
step-OwnerInside {s} (ends i e n) v = keeps_side s i finished v (λ h. rw e at h) (λ h. absurd h)
step-OwnerInside {s} (cancels e) v = keeps_side s 1 finished v (λ h. rw e at h) (λ h. absurd h)
step-OwnerInside {s} (ends_asleep a e) v =
    keeps_side s 2 cancelled v (λ h. rw e at h) (λ h. absurd h)
step-OwnerInside {s} (cleans_up a e) v = leaves s 2 cancelled v (rw e tt) (λ h. h)

reach-OwnerInside : {s : Threads} → CleanupReach s → OwnerInside s
reach-OwnerInside cleanup_begin = ((λ i e. absurd (no_thread refl e)), (λ i h. absurd h))
reach-OwnerInside (cleanup_next r st) = step-OwnerInside st (reach-OwnerInside r)

-- Steps that lead to a state with the mutex free.
pub data Frees : Threads → Type 0 where
  is_free : {s : Threads} → s.owner ≡ none → Frees s
  after : {s t : Threads} → CleanupStep s t → Frees t → Frees s

-- The owner can always go on to its unlocking.
inside_frees : (s : Threads) (i : ℕ) (p : Phase) → s.phase i ≡ p → IsInside p → Frees s
inside_frees s i unguarded e h = after (unlocks i e) (is_free refl)
inside_frees s i guarded e h =
    after (pops i e) (after (unlocks i (put_self s.phase i unguarded)) (is_free refl))
inside_frees s i locked e h =
    let g = put_self s.phase i guarded in
    after (pushes i e) (
      after (pops i g)
        (after (unlocks i (put_self (put s.phase i guarded) i unguarded)) (is_free refl)))
inside_frees s i sleeping e h = absurd h
inside_frees s i locking e h = absurd h
inside_frees s i unlocked e h = absurd h
inside_frees s i finished e h = absurd h
inside_frees s i cancelled e h = absurd h

-- In every state that the threads of cleanup_mutex.c can reach, also when one has been cancelled: two
-- threads are never between locking and unlocking at once, the owner of the mutex is such a thread, so it
-- has not ended, and there are steps that lead to a state where the mutex is free.
pub cleanup_lem :
    {s : Threads}
    → CleanupReach s
    → ((i j : ℕ) → IsInside (s.phase i) → IsInside (s.phase j) → i ≡ j)
      × ((i : ℕ) → s.owner ≡ some i → IsInside (s.phase i))
      × Frees s
cleanup_lem {s} r =
    let v = reach-OwnerInside r in
    (
      λ i j a b. same_thread (v.1 i a) (v.1 j b),
      v.0,
      elim (Option-cases s.owner) [
        | inl free ↦ is_free free
        | inr (k, own) ↦ inside_frees s k (s.phase k) refl (v.0 k own)
      ],
    )
