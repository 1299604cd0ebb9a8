-- ===== src/FifoGame/Score.antt =====
-- The result of `check` in sp/ipc/ipc.c, and the strikes and balls that it prints.
use temp.Base.{
  ℕ, ◌+◌, ◌<◌, ◌≤◌, ◌≡◌, ◌⊎◌, inl, inr, refl, true, false, ◌==◌, if◌then◌else◌, List, arith,
  Bool-cases, get_or,
}
use temp.FifoGame.{correct, wrong, goal, strncmp_eq, tally, tally_row, tally_all, check}

-- 1 if the byte is the digit of the goal at the place given.
pub hit : ℕ → ℕ → ℕ
hit i b = if get_or goal i 0 == b then 1 else 0

tally_total :
    (buf : List ℕ) (i j : ℕ) (s : ℕ × ℕ)
    → (tally buf i j s).0 + (tally buf i j s).1 ≡ s.0 + s.1 + hit i (get_or buf j 0)
unfolding tally hit
tally_total buf i j (a, b) = elim (Bool-cases (get_or goal i 0 == get_or buf j 0)) [
  | inl x ↦ elim (Bool-cases (i == j)) [
    | inl y ↦ rw (x, y) (omega arith)
    | inr y ↦ rw (x, y) (omega arith)
  ]
  | inr x ↦ rw x (omega arith)
]

-- Only a byte in its own place counts as a strike.
tally_strike :
    (buf : List ℕ) (i j : ℕ) (s : ℕ × ℕ)
    → (tally buf i j s).0 ≡ s.0 + (if i == j then hit i (get_or buf j 0) else 0)
unfolding tally hit
tally_strike buf i j (a, b) = elim (Bool-cases (get_or goal i 0 == get_or buf j 0)) [
  | inl x ↦ elim (Bool-cases (i == j)) [
    | inl y ↦ rw (x, y) (omega arith)
    | inr y ↦ rw (x, y) (omega arith)
  ]
  | inr x ↦ elim (Bool-cases (i == j)) [
    | inl y ↦ rw (x, y) (omega arith)
    | inr y ↦ rw (x, y) (omega arith)
  ]
]

hit_once : (b : ℕ) → hit 0 b + hit 1 b + hit 2 b ≤ 1
unfolding hit
hit_once b = ground arith

-- The sum of strikes and balls over the nine passes.
row_total :
    (buf : List ℕ) (i : ℕ) (s : ℕ × ℕ)
    → (tally_row buf i 0 3 s).0 + (tally_row buf i 0 3 s).1
      ≡ s.0 + s.1 + hit i (get_or buf 0 0) + hit i (get_or buf 1 0) + hit i (get_or buf 2 0)
unfolding tally_row
row_total buf i s =
    let s₁ = tally buf i 0 s in
    let s₂ = tally buf i 1 s₁ in
    omega (arith, tally_total buf i 0 s, tally_total buf i 1 s₁, tally_total buf i 2 s₂)

all_total : (buf : List ℕ) → (tally_all buf 0 3 (0, 0)).0 + (tally_all buf 0 3 (0, 0)).1 ≤ 3
unfolding tally_all
all_total buf =
    let s₁ = tally_row buf 0 0 3 (0, 0) in
    let s₂ = tally_row buf 1 0 3 s₁ in
    omega (
      arith,
      row_total buf 0 (0, 0),
      row_total buf 1 s₁,
      row_total buf 2 s₂,
      hit_once (get_or buf 0 0),
      hit_once (get_or buf 1 0),
      hit_once (get_or buf 2 0),
    )

all_strikes :
    (buf : List ℕ)
    → (tally_all buf 0 3 (0, 0)).0
      ≡ hit 0 (get_or buf 0 0) + hit 1 (get_or buf 1 0) + hit 2 (get_or buf 2 0)
unfolding tally_all tally_row
all_strikes buf =
    let t = λ (i : ℕ) (s : ℕ × ℕ). tally buf i 2 (tally buf i 1 (tally buf i 0 s)) in
    let s₁ = t 0 (0, 0) in let s₂ = t 1 s₁ in omega (arith, row 0 (0, 0), row 1 s₁, row 2 s₂)
  where
    row :
        (i : ℕ) (s : ℕ × ℕ)
        → ((tally buf i 2 (tally buf i 1 (tally buf i 0 s))).0
            ≡ s.0
              + (if i == 0 then hit i (get_or buf 0 0) else 0)
              + (if i == 1 then hit i (get_or buf 1 0) else 0)
              + (if i == 2 then hit i (get_or buf 2 0) else 0))
    row i s =
        let s₁ = tally buf i 0 s in
        let s₂ = tally buf i 1 s₁ in
        omega (arith, tally_strike buf i 0 s, tally_strike buf i 1 s₁, tally_strike buf i 2 s₂)

strncmp_lem :
    (buf : List ℕ)
    → (strncmp_eq buf goal 0 3 ≡ true
        × get_or buf 0 0 ≡ b'3'
        × get_or buf 1 0 ≡ b'8'
        × get_or buf 2 0 ≡ b'5')
      ⊎ (strncmp_eq buf goal 0 3 ≡ false
          × hit 0 (get_or buf 0 0) + hit 1 (get_or buf 1 0) + hit 2 (get_or buf 2 0) < 3)
unfolding strncmp_eq hit
strncmp_lem buf = ground arith

-- `check` finds the guess correct just when its first three bytes are those of the goal. Otherwise the
-- strikes that it prints are the bytes that stand in their own place, fewer than three, and strikes and
-- balls together are at most three.
pub check_lem :
    (buf : List ℕ)
    → (check buf ≡ (correct, 3, 0)
        × get_or buf 0 0 ≡ b'3'
        × get_or buf 1 0 ≡ b'8'
        × get_or buf 2 0 ≡ b'5')
      ⊎ ((check buf).0 ≡ wrong
          × (check buf).1 ≡ hit 0 (get_or buf 0 0) + hit 1 (get_or buf 1 0) + hit 2 (get_or buf 2 0)
          × (check buf).1 < 3
          × (check buf).1 + (check buf).2 ≤ 3)
unfolding check
check_lem buf = elim (strncmp_lem buf) [
  | inl (x, first, second, third) ↦ inl (rw x refl, first, second, third)
  | inr (x, few) ↦ inr (
    rw x refl,
    rw x (all_strikes buf),
    rw x (omega (arith, all_strikes buf, few)),
    rw x (all_total buf),
  )
]
