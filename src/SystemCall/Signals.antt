-- ===== src/SystemCall/Signals.antt =====
-- What APUE/posix_system.c leaves behind: the dispositions of two signals and the mask.
use temp.Base.{ℕ, zero, suc, ◌≡◌, ◌⊎◌, inl, inr, refl, none, some, List, ◌∷◌, Option-cases}
use temp.Base.Sys.{
  Call, Errno, Env, Ends, Ends-bind, Ends-map, M, pure, fork, exec, waitpid, sigaction, sigprocmask,
}
use temp.SystemCall.{
  failure, wait_status, run_shell, sigint, sigquit, saved, ignored, blocked, or_fail, restore,
  child, fork_and_wait, posix_system,
}

-- The last three calls put back both dispositions and the mask, in this order.
pub data PutBack : List Call → Type 0 where
  put_back :
      (t : List Call)
      → PutBack (sigprocmask saved ∷ sigaction sigquit saved ∷ sigaction sigint saved ∷ t)

-- They do, and none of them failed.
pub data Restored (e : Env) : List Call → Type 0 where
  restored :
      (a b c : ℕ) (t : List Call)
      → (e (sigaction sigint saved ∷ t)).ret ≡ some a
      → (e (sigaction sigquit saved ∷ sigaction sigint saved ∷ t)).ret ≡ some b
      → (e (sigprocmask saved ∷ sigaction sigquit saved ∷ sigaction sigint saved ∷ t)).ret ≡ some c
      → Restored e (sigprocmask saved ∷ sigaction sigquit saved ∷ sigaction sigint saved ∷ t)

-- The last call concerns a disposition or the mask; it is no `fork` and no `waitpid`.
pub data SignalCall : List Call → Type 0 where
  disposes : (signo how : ℕ) (t : List Call) → SignalCall (sigaction signo how ∷ t)
  masks : (how : ℕ) (t : List Call) → SignalCall (sigprocmask how ∷ t)

-- `system` returns after it has put all back, or returns -1 just after a call for the dispositions or the
-- mask that failed.
abbrev pub Left : Env → ℕ → List Call → Type 0
Left e r h' = Restored e h' ⊎ ((r ≡ failure) × ((e h').ret ≡ none) × SignalCall h')

-- The child ends with 127, when it has put all back and `exec` has failed.
abbrev pub ChildEnded : Env → ℕ → List Call → Type 0
ChildEnded e c h' =
    (c ≡ 127)
    × ((e h').ret ≡ none)
    × ((command : List ℕ) × (t : List Call) × (h' ≡ exec command ∷ t) × PutBack t)

module _ (e : Env) where
  restore_lem : (status : ℕ) (h : List Call) → Ends (Left e) (λ _ _. ⊥) (restore status e h)
  unfolding restore or_fail
  restore_lem status h =
      let h₁ = sigaction sigint saved ∷ h in
      let h₂ = sigaction sigquit saved ∷ h₁ in
      elim (Option-cases (e h₁).ret) [
        | inl x ↦ rw x (inr (refl, x, disposes sigint saved h))
        | inr (a, x) ↦ elim (Option-cases (e h₂).ret) [
          | inl y ↦ rw (x, y) (inr (refl, y, disposes sigquit saved h₁))
          | inr (b, y) ↦ elim (Option-cases (e (sigprocmask saved ∷ h₂)).ret) [
            | inl z ↦ rw (x, y, z) (inr (refl, z, masks saved h₂))
            | inr (c, z) ↦ rw (x, y, z) (inl (restored a b c h x y z))
          ]
        ]
      ]

  child_lem : (command : List ℕ) (h : List Call) → Ends (Left e) (ChildEnded e) (child command e h)
  unfolding child run_shell
  child_lem command h =
      let t = sigprocmask saved ∷ sigaction sigquit saved ∷ sigaction sigint saved ∷ h in
      elim (Option-cases (e (exec command ∷ t)).ret) [
        | inl x ↦ rw x (refl, x, (command, t, refl, put_back h))
        | inr (a, x) ↦ rw x tt
      ]

  wait_status_lem :
      (n pid : ℕ) (h : List Call) → Ends (λ _ _. Unit) (λ _ _. ⊥) (wait_status n pid e h)
  unfolding wait_status
  wait_status_lem zero pid h = tt
  wait_status_lem (suc n) pid h = elim (Option-cases (e (waitpid pid ∷ h)).ret) [
    | inr (a, x) ↦ rw x tt
    | inl x ↦ rw x (again (e (waitpid pid ∷ h)).errno (wait_status_lem n pid (waitpid pid ∷ h)))
  ]
    where
      again :
          (k : Errno)
          → Ends (λ _ _. Unit) (λ _ _. ⊥) (wait_status n pid e (waitpid pid ∷ h))
          → Ends
              (λ _ _. Unit)
              (λ _ _. ⊥)
              (elim k as (λ _. M ℕ) [ Errno.eintr ↦ wait_status n pid | _ ↦ pure failure ] e
                (waitpid pid ∷ h))
      again Errno.eintr w = w
      again Errno.eagain w = tt
      again Errno.eexist w = tt
      again Errno.einval w = tt
      again Errno.ebusy w = tt
      again Errno.enoent w = tt
      again Errno.other w = tt

  or_fail_lem :
      (c : Call) (next : M ℕ) (h : List Call)
      → SignalCall (c ∷ h)
      → Ends (Left e) (ChildEnded e) (next e (c ∷ h))
      → Ends (Left e) (ChildEnded e) (or_fail c next e h)
  unfolding or_fail
  or_fail_lem c next h of after = elim (Option-cases (e (c ∷ h)).ret) [
    | inl x ↦ rw x (inr (refl, x, of))
    | inr (a, x) ↦ rw x after
  ]

  restored_after : (status : ℕ) (h : List Call) → Ends (Left e) (ChildEnded e) (restore status e h)
  restored_after status h =
      Ends-map (restore status e h) (λ _ _ l. l) (λ _ _ none_ends. absurd none_ends)
        (restore_lem status h)

  fork_and_wait_lem :
      (n : ℕ) (command : List ℕ) (h : List Call)
      → Ends (Left e) (ChildEnded e) (fork_and_wait n command e h)
  unfolding fork_and_wait
  fork_and_wait_lem n command h = elim (Option-cases (e (fork ∷ h)).ret) [
    | inl x ↦ rw x (restored_after failure (fork ∷ h))
    | inr (zero, x) ↦ rw x (child_lem command (fork ∷ h))
    | inr (suc k, x) ↦ rw x (
        Ends-bind (λ _ _. Unit) (Left e) (ChildEnded e) (wait_status n (suc k)) restore e (fork ∷ h)
          (Ends-map (wait_status n (suc k) e (fork ∷ h)) (λ _ _ u. u)
            (λ _ _ none_ends. absurd none_ends) (wait_status_lem n (suc k) (fork ∷ h)))
          (λ status t _. restored_after status t))
  ]

-- `system` of posix_system.c with a command: when it returns, the last three calls have put back both
-- dispositions and the mask, all three with success, whatever became of `fork` and `waitpid`; or it returns
-- -1 just after a call for the dispositions or the mask that failed. The child ends only with 127, after a
-- failed `exec`, just before which it has made the three calls that put all back.
pub posix_system_lem :
    (n : ℕ) (command : List ℕ) (e : Env) (h : List Call)
    → Ends (Left e) (ChildEnded e) (posix_system n (some command) e h)
unfolding posix_system
posix_system_lem n command e h =
    let h₁ = sigaction sigint ignored ∷ h in
    let h₂ = sigaction sigquit ignored ∷ h₁ in
    or_fail_lem e (sigaction sigint ignored) _ h (disposes sigint ignored h) (
      or_fail_lem e (sigaction sigquit ignored) _ h₁ (disposes sigquit ignored h₁) (
        or_fail_lem e (sigprocmask blocked) _ h₂ (masks blocked h₂)
          (fork_and_wait_lem e n command _)))
