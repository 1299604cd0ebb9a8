-- ===== src/Mutexes/Robust.antt =====
-- ALSP/mutex_robust.c: a thread may be cancelled while it holds a robust mutex, and the next one to lock it
-- is told so. A cancellation acts at the next `sleep` or output of its thread.

use temp.Base.{ℕ, ◌≡◌, ◌≢◌, ◌⊎◌, inl, inr, refl, ◌∙◌, ap, Bool, true, false}
use temp.Mutexes.{put, put_cases, put_self}

-- `start_thread`: in its first `sleep`, at `pthread_mutex_lock`, behind EOWNERDEAD, as the holder of the
-- mutex, behind `pthread_mutex_lock` with another error, behind the unlocking, and at its end.
pub data Phase : Type 0 where
  sleeping locking owner_dead holding without_mutex unlocked finished cancelled : Phase

-- The mutex is free; held; left by an owner that has ended; held by a thread that was told so and has not
-- made it consistent; or unlocked by such a thread, after which every locking fails.
pub data Robust : Type 0 where
  free orphaned not_recoverable : Robust
  held inconsistent : ℕ → Robust

pub record Threads : Type 0 where
  pub phase : ℕ → Phase
  pub mutex : Robust
  pub asked : Bool

abbrev pub begin_threads : Threads
begin_threads = record { phase = λ _. sleeping; mutex = free; asked = false }

abbrev pub move : Threads → ℕ → Phase → Robust → Threads
move s i p m = record s { phase = put s.phase i p; mutex = m }

-- What `pthread_mutex_unlock` of its holder makes of the mutex.
abbrev pub released : Robust → Robust
released (inconsistent i) = not_recoverable
released (held i) = free
released m = m

-- What the end of thread `i` makes of the mutex: it holds it or does not.
abbrev pub abandoned : Phase → Robust → Robust
abandoned holding m = orphaned
abandoned owner_dead m = orphaned
abandoned _ m = m

abbrev pub MayEnd : Phase → Type 0
MayEnd sleeping = Unit
MayEnd holding = Unit
MayEnd owner_dead = Unit
MayEnd without_mutex = Unit
MayEnd _ = ⊥

pub data RobustStep (s : Threads) : Threads → Type 0 where
  wakes : (i : ℕ) → s.phase i ≡ sleeping → RobustStep s (move s i locking s.mutex)
  locks : (i : ℕ) → s.phase i ≡ locking → s.mutex ≡ free → RobustStep s (move s i holding (held i))
  finds_dead :
      (i : ℕ)
      → s.phase i ≡ locking
      → s.mutex ≡ orphaned
      → RobustStep s (move s i owner_dead (inconsistent i))
  fails :
      (i : ℕ)
      → s.phase i ≡ locking
      → s.mutex ≡ not_recoverable
      → RobustStep s (move s i without_mutex s.mutex)
  mends : (i : ℕ) → s.phase i ≡ owner_dead → RobustStep s (move s i holding (held i))
  unlocks : (i : ℕ) → s.phase i ≡ holding → RobustStep s (move s i unlocked (released s.mutex))
  unlocks_nothing : (i : ℕ) → s.phase i ≡ without_mutex → RobustStep s (move s i unlocked s.mutex)
  ends : (i : ℕ) → s.phase i ≡ unlocked → i ≢ 1 → RobustStep s (move s i finished s.mutex)
  cancels :
      s.phase 1 ≡ unlocked → RobustStep s (record (move s 1 finished s.mutex) { asked = true })
  dies :
      s.asked ≡ true
      → MayEnd (s.phase 2)
      → RobustStep s (move s 2 cancelled (abandoned (s.phase 2) s.mutex))

pub data RobustReach : Threads → Type 0 where
  robust_begin : RobustReach begin_threads
  robust_next : {s t : Threads} → RobustReach s → RobustStep s t → RobustReach t

-- The phases that the mutex and the threads must agree on.
abbrev pub HoldsAs : Phase → ℕ → Robust → Type 0
HoldsAs holding i m = m ≡ held i
HoldsAs owner_dead i m = m ≡ inconsistent i
HoldsAs without_mutex i m = ⊥
HoldsAs _ i m = Unit

abbrev pub HeldIn : (ℕ → Phase) → Robust → Type 0
HeldIn phase (held i) = phase i ≡ holding
HeldIn phase (inconsistent i) = phase i ≡ owner_dead
HeldIn phase not_recoverable = ⊥
HeldIn phase _ = Unit

abbrev pub Agrees : Threads → Type 0
Agrees s = ((i : ℕ) → HoldsAs (s.phase i) i s.mutex) × HeldIn s.phase s.mutex

-- A thread that does not hold the mutex is not concerned by its new state.
others_out :
    (ph : Phase) (j : ℕ) (m m' : Robust)
    → (m ≡ held j → ⊥)
    → (m ≡ inconsistent j → ⊥)
    → HoldsAs ph j m
    → HoldsAs ph j m'
others_out sleeping j m m' a b h = tt
others_out locking j m m' a b h = tt
others_out owner_dead j m m' a b h = absurd (b h)
others_out holding j m m' a b h = absurd (a h)
others_out without_mutex j m m' a b h = absurd h
others_out unlocked j m m' a b h = tt
others_out finished j m m' a b h = tt
others_out cancelled j m m' a b h = tt

-- A thread that does not hold it goes on.
HeldIn-put :
    (f : ℕ → Phase) (i : ℕ) (p : Phase) (m : Robust)
    → f i ≢ holding
    → f i ≢ owner_dead
    → HeldIn f m
    → HeldIn (put f i p) m
HeldIn-put f i p free a b h = tt
HeldIn-put f i p orphaned a b h = tt
HeldIn-put f i p not_recoverable a b h = h
HeldIn-put f i p (held k) a b h = elim (put_cases f i k p) [
  | inl (e, q) ↦ absurd (a (ap f e ∙ h))
  | inr (n, q) ↦ q ∙ h
]
HeldIn-put f i p (inconsistent k) a b h = elim (put_cases f i k p) [
  | inl (e, q) ↦ absurd (b (ap f e ∙ h))
  | inr (n, q) ↦ q ∙ h
]

module _ (s : Threads) (i : ℕ) (p : Phase) (v : Agrees s) where
  -- One thread goes on, and leaves the mutex as it is.
  goes_on :
      s.phase i ≢ holding
      → s.phase i ≢ owner_dead
      → HoldsAs p i s.mutex
      → Agrees (move s i p s.mutex)
  goes_on a b now = (
    λ j. elim (put_cases s.phase i j p) [
      | inl (e, q) ↦ rw q (rw e at now)
      | inr (n, q) ↦ rw q (v.0 j)
    ],
    HeldIn-put s.phase i p s.mutex a b v.1,
  )

  -- One thread takes the mutex, or gives it up.
  takes :
      (m : Robust)
      → ((j : ℕ) → i ≢ j → (s.mutex ≡ held j → ⊥) × (s.mutex ≡ inconsistent j → ⊥))
      → HoldsAs p i m
      → HeldIn (put s.phase i p) m
      → Agrees (move s i p m)
  takes m others now in_hand = (
    λ j. elim (put_cases s.phase i j p) [
      | inl (e, q) ↦ rw q (rw e at now)
      | inr (n, q) ↦ rw q (others_out (s.phase j) j s.mutex m (others j n).0 (others j n).1 (v.0 j))
    ],
    in_hand,
  )

-- Of a mutex that no thread holds, and of one that thread `i` holds.
held_by_none :
    {m : Robust} (j : ℕ) → (m ≡ free) ⊎ (m ≡ orphaned) → (m ≡ held j → ⊥) × (m ≡ inconsistent j → ⊥)
held_by_none j (inl a) = ((λ b. cc), (λ b. cc))
held_by_none j (inr a) = ((λ b. cc), (λ b. cc))

held_by_other :
    {m : Robust} (i j : ℕ)
    → (m ≡ held i) ⊎ (m ≡ inconsistent i)
    → i ≢ j
    → (m ≡ held j → ⊥) × (m ≡ inconsistent j → ⊥)
held_by_other i j (inl a) n = ((λ b. n (cc)), (λ b. cc))
held_by_other i j (inr a) n = ((λ b. cc), (λ b. n (cc)))

step-Agrees : {s t : Threads} → RobustStep s t → Agrees s → Agrees t
step-Agrees {s} (wakes i e) v = goes_on s i locking v (λ h. cc) (λ h. cc) tt
step-Agrees {s} (locks i e m) v =
    takes s i holding v (held i) (λ j n. held_by_none j (inl m)) refl (put_self s.phase i holding)
step-Agrees {s} (finds_dead i e m) v =
    takes s i owner_dead v (inconsistent i) (λ j n. held_by_none j (inr m)) refl
      (put_self s.phase i owner_dead)
step-Agrees {s} (fails i e m) v = absurd (rw m at v.1)
step-Agrees {s} (mends i e) v =
    let own : s.mutex ≡ inconsistent i = rw e at (v.0 i) in
    takes s i holding v (held i) (λ j n. held_by_other i j (inr own) n) refl
      (put_self s.phase i holding)
step-Agrees {s} (unlocks i e) v =
    let own : s.mutex ≡ held i = rw e at (v.0 i) in
    takes s i unlocked v (released s.mutex) (λ j n. held_by_other i j (inl own) n) tt (rw own tt)
step-Agrees {s} (unlocks_nothing i e) v = absurd (rw e at (v.0 i))
step-Agrees {s} (ends i e n) v = goes_on s i finished v (λ h. cc) (λ h. cc) tt
step-Agrees {s} (cancels e) v = goes_on s 1 finished v (λ h. cc) (λ h. cc) tt
step-Agrees {s} (dies a may) v = at_phase (s.phase 2) refl may
  where
    at_phase :
        (p : Phase) → s.phase 2 ≡ p → MayEnd p → Agrees (move s 2 cancelled (abandoned p s.mutex))
    at_phase sleeping e h = goes_on s 2 cancelled v (λ q. cc) (λ q. cc) tt
    at_phase holding e h =
        takes s 2 cancelled v orphaned (λ j n. held_by_other 2 j (inl (rw e at (v.0 2))) n) tt tt
    at_phase owner_dead e h =
        takes s 2 cancelled v orphaned (λ j n. held_by_other 2 j (inr (rw e at (v.0 2))) n) tt tt
    at_phase locking e h = absurd h
    at_phase without_mutex e h = absurd (rw e at (v.0 2))
    at_phase unlocked e h = absurd h
    at_phase finished e h = absurd h
    at_phase cancelled e h = absurd h

reach-Agrees : {s : Threads} → RobustReach s → Agrees s
reach-Agrees robust_begin = ((λ i. tt), tt)
reach-Agrees (robust_next r st) = step-Agrees st (reach-Agrees r)

abbrev pub IsInside : Phase → Type 0
IsInside holding = Unit
IsInside owner_dead = Unit
IsInside _ = ⊥

holder :
    (p : Phase) (i : ℕ) (m : Robust)
    → HoldsAs p i m
    → IsInside p
    → (m ≡ held i) ⊎ (m ≡ inconsistent i)
holder holding i m a h = inl a
holder owner_dead i m a h = inr a
holder sleeping i m a h = absurd h
holder locking i m a h = absurd h
holder without_mutex i m a h = absurd h
holder unlocked i m a h = absurd h
holder finished i m a h = absurd h
holder cancelled i m a h = absurd h

same_holder :
    {m : Robust} {i j : ℕ}
    → (m ≡ held i) ⊎ (m ≡ inconsistent i)
    → (m ≡ held j) ⊎ (m ≡ inconsistent j)
    → i ≡ j
same_holder (inl a) (inl b) = cc
same_holder (inl a) (inr b) = cc
same_holder (inr a) (inl b) = cc
same_holder (inr a) (inr b) = cc

-- In every state that the threads of mutex_robust.c can reach, also when the owner of the mutex has been
-- cancelled: the mutex can be made consistent, so no locking fails and no thread goes on without it, two
-- threads never hold it at once, and it is never left to a thread that has ended: who holds it is at work
-- inside, and who holds it inconsistent has been told so and is about to mend it.
pub robust_lem :
    {s : Threads}
    → RobustReach s
    → (s.mutex ≢ not_recoverable)
      × ((i : ℕ) → s.phase i ≢ without_mutex)
      × ((i j : ℕ) → IsInside (s.phase i) → IsInside (s.phase j) → i ≡ j)
      × ((i : ℕ) → s.mutex ≡ held i → s.phase i ≡ holding)
      × ((i : ℕ) → s.mutex ≡ inconsistent i → s.phase i ≡ owner_dead)
robust_lem {s} r =
    let v = reach-Agrees r in
    (
      λ e. rw e at v.1,
      λ i e. rw e at (v.0 i),
      λ i j a b.
          same_holder (holder (s.phase i) i s.mutex (v.0 i) a)
            (holder (s.phase j) j s.mutex (v.0 j) b),
      λ i e. rw e at v.1,
      λ i e. rw e at v.1,
    )
