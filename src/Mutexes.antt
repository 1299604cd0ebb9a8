-- ===== src/Mutexes.antt =====
-- The programs that try a mutex: ALSP/cleanup_mutex.c, ALSP/mutex_robust.c, test/pthread_mutex.c and
-- ALSP/sum_strnum_mutex.c. Their threads are interleaved in steps; a thread is known by its `idx`.
pub mod Cleanup
pub mod Robust
pub mod Counter
pub mod SumString
mod Tests
use mathlib.Core.Logic.{ite}
use native.Mathlib.Decide.{ℕ_discrete}
use temp.Base.{ℕ, ◌≡◌, ◌≢◌, ◌⊎◌, inl, inr, refl}

-- The state of thread `i` is now `x`.
abbrev pub put {ℓ} : {A : Type ℓ} → (ℕ → A) → ℕ → A → ℕ → A
put f i x j = ite (ℕ_discrete i j) x (f j)

pub put_cases {ℓ} :
    {A : Type ℓ} (f : ℕ → A) (i j : ℕ) (x : A)
    → ((i ≡ j) × (put f i x j ≡ x)) ⊎ ((i ≢ j) × (put f i x j ≡ f j))
put_cases f i j x =
    elim (ℕ_discrete i j)
      as (λ d. ((i ≡ j) × (ite d x (f j) ≡ x)) ⊎ ((i ≢ j) × (ite d x (f j) ≡ f j))) [
        | yes e ↦ inl (e, refl)
        | no n ↦ inr (n, refl)
      ]

pub put_self {ℓ} : {A : Type ℓ} (f : ℕ → A) (i : ℕ) (x : A) → put f i x i ≡ x
put_self f i x = elim (put_cases f i i x) [ inl (e, q) ↦ q | inr (n, q) ↦ absurd (n refl) ]
