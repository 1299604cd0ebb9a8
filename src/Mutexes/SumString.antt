-- ===== src/Mutexes/SumString.antt =====
-- ALSP/sum_strnum_mutex.c: threads that add two numbers into one static buffer. The mutex is held while the
-- buffer is written, and not until it is printed. The sum of each thread's numbers is given.

use temp.Base.{ℕ, ◌≡◌, ◌≢◌, inl, inr, refl, sym, ◌∙◌, List, [], ◌∷◌, ◌++◌}
use temp.Mutexes.{put, put_self, put_cases}

-- `start_func`: before `sum_strnum`, behind it, and at its end.
pub data Phase : Type 0 where
  created summed printed : Phase

-- The buffer as a number, and the lines printed: a thread and the sum that it printed.
pub record Process : Type 0 where
  pub phase : ℕ → Phase
  pub buf_sum : ℕ
  pub lines : List (ℕ × ℕ)

abbrev pub launch : Process
launch = record { phase = λ _. created; buf_sum = 0; lines = [] }

pub data SumStep (sum : ℕ → ℕ) (s : Process) : Process → Type 0 where
  adds :
      (i : ℕ)
      → s.phase i ≡ created
      → SumStep sum s (record s { phase = put s.phase i summed; buf_sum = sum i })
  prints :
      (i : ℕ)
      → s.phase i ≡ summed
      → SumStep sum s
          (record s { phase = put s.phase i printed; lines = s.lines ++ ((i, s.buf_sum) ∷ []) })

pub data SumReach (sum : ℕ → ℕ) : Process → Type 0 where
  sum_begin : SumReach sum launch
  sum_next : {s t : Process} → SumReach sum s → SumStep sum s t → SumReach sum t

-- Whatever the sums are, any two threads can run so that one prints the sum of the other as its own: the
-- buffer is shared, and is written again between `sum_strnum` and the output.
prints_other_sum :
    (sum : ℕ → ℕ) (i j : ℕ) → i ≢ j → (s : Process) × SumReach sum s × (s.lines ≡ (i, sum j) ∷ [])
prints_other_sum sum i j ne =
    let f = put launch.phase i summed in
    let created_still : f j ≡ created = elim (put_cases launch.phase i j summed) [
      | inl (e, q) ↦ absurd (ne e)
      | inr (n, q) ↦ q
    ] in
    let summed_still : put f j summed i ≡ summed = elim (put_cases f j i summed) [
      | inl (e, q) ↦ absurd (ne (sym e))
      | inr (n, q) ↦ q ∙ put_self launch.phase i summed
    ] in
    (
      _,
      sum_next (sum_next (sum_next sum_begin (adds i refl)) (adds j created_still))
          (prints i summed_still),
      refl,
    )
